-- ===== src/Redt/Report/Panics.antt =====
-- SignersForHeader (redt/redt.go) with a validator that the list of operators does not name.
use signers.Base.{
  ℕ, ◌+◌, ◌≡◌, ◌⊎◌, inl, inr, refl, List, [], ◌∷◌, Option, none, some, arith, true, false, contains,
  get_elem?, Option-cases, Bool-cases,
}
use signers.Base.Int.{leb_ℤ}
use signers.Base.Text.{Text}
use signers.Base.Exec.{returned, panicked}
use signers.Redt.Types.{Address, Header, block_number, ValInfo, Geth}
use signers.Redt.Node.{Node, validators}
use signers.Redt.Stats.{signers_from_block, update_statistics_for_block}
use signers.Redt.Stats.Counting.{IsFree, update_fresh, update_stale, counted}
use signers.Redt.Report.{
  or_panic, next_index, next_proposer, for_validators, next_operator, read_report,
  signers_for_header, report_row,
}

module _ (g : Geth) where
  -- The address is a member of the set and the list of operators has no entry for it.
  abbrev pub Unknown : Node g → Address → Type 0
  Unknown s a = s.all_validators a ≡ none

  for_validators-panics :
      {A : Type 0} (row : ValInfo → A) (vs : List Address) (a : Address) (s : Node g)
      → contains a vs ≡ true
      → Unknown s a
      → for_validators g row vs s ≡ (panicked, s)
  unfolding for_validators contains
  for_validators-panics row [] a s member unknown = cc
  for_validators-panics row (v ∷ vs) a s member unknown =
      ground (arith, for_validators-panics row vs a s)

  next_operator-listed :
      (a : Address) (s : Node g) (o : Option Address)
      → next_proposer a s.val_set ≡ or_panic o
      → ((text : Text) × (next_operator g a s ≡ (returned text, s)))
        ⊎ (next_operator g a s ≡ (panicked, s))
  unfolding next_operator validators
  next_operator-listed a s none e = inr (rw e)
  next_operator-listed a s (some b) e = elim (Option-cases (s.all_validators b)) [
    | inl nobody ↦ inr (rw e (rw nobody))
    | inr (info, found) ↦ inl (info.operator, rw e (rw found))
  ]

  next_operator-ends :
      (a : Address) (s : Node g)
      → ((text : Text) × (next_operator g a s ≡ (returned text, s)))
        ⊎ (next_operator g a s ≡ (panicked, s))
  unfolding next_proposer
  next_operator-ends a s =
      next_operator-listed a s (get_elem? s.val_set (next_index a s.val_set)) refl

  read_report-panics :
      (h : Header) (latest : ℕ) (author : Address) (signers : List Address) (text : Text)
      (s : Node g)
      → (s.all_validators author ≡ none)
        ⊎ ((a : Address) × (contains a s.val_set ≡ true) × Unknown s a)
      → read_report g h latest author signers text s ≡ (panicked, s)
  unfolding read_report validators
  read_report-panics h latest author signers text s (inl nobody) = rw nobody
  read_report-panics h latest author signers text s (inr (a, member, unknown)) =
      elim (Option-cases (s.all_validators author)) [
        | inl nobody ↦ rw nobody
        | inr (info, found) ↦ rw found (
            rw (for_validators-panics (report_row g author signers s) s.val_set a s member unknown))
      ]

module _ (g : Geth) (h : Header) (latest : ℕ) (s : Node g) {author : Address}
    {signers : List Address} (recovered : signers_from_block g h ≡ returned (author, signers)) where
  after_update :
      (t : Node g)
      → t.locked ≡ false
      → (t.all_validators author ≡ none)
        ⊎ ((a : Address) × (contains a t.val_set ≡ true) × (t.all_validators a ≡ none))
      → update_statistics_for_block g h s ≡ (returned (author, signers), t)
      → (signers_for_header g h latest s).0 ≡ panicked
  unfolding signers_for_header
  after_update t unlocked unlisted updated = elim (next_operator-ends g author t) [
    | inl (text, next) ↦ rw updated (
        rw next (
          rw unlocked (
            rw (
              read_report-panics g h latest author signers text
                (record t { locked = false; readers = t.readers + 1 }) unlisted))))
    | inr stops ↦ rw updated (rw stops)
  ]

  -- Where the seals of a block are recovered and no lock is held, SignersForHeader panics as soon
  -- as the author, or any member of the validator set, has no entry in the list of operators.
  pub signers_for_header-panics :
      IsFree s
      → (s.all_validators author ≡ none)
        ⊎ ((a : Address) × (contains a s.val_set ≡ true) × (s.all_validators a ≡ none))
      → (signers_for_header g h latest s).0 ≡ panicked
  signers_for_header-panics free unlisted =
      elim (Bool-cases (leb_ℤ (block_number h) s.last_block_processed)) [
        | inl stale ↦
            after_update s free.0 unlisted (update_stale g h s recovered free (ground arith))
        | inr fresh ↦
            after_update (counted g h s recovered) free.0 unlisted
              (update_fresh g h s recovered free (ground arith))
      ]
