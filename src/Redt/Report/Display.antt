-- ===== src/Redt/Report/Display.antt =====
-- What the two displays of a block read (redt/redt.go) when every validator is known.
use signers.Base.{
  Option, ℕ, zero, suc, ltb, ◌<◌, ◌≡◌, refl, List, [], ◌∷◌, ◌++◌, map, some, length, All, get_elem?,
}
use mathlib.Core.Path.{subst}
use mathlib.Core.Option.{some-injective}
use signers.Base.Int.{ℤ, pos, int64}
use signers.Base.Text.{Text}
use signers.Base.Exec.{returned}
use signers.Redt.Types.{Address, Header, ValInfo, Geth}
use signers.Redt.Node.{RedTNode, Node, Shown, validators}
use signers.Redt.Report.{elapsed_since, for_validators, next_operator, show_block, terminal_line}
use signers.Redt.Report.RoundRobin.{next_proposer-member}

-- An address that the list of validators names.
abbrev pub Known : {C : Type 0} → RedTNode C → Address → Type 0
Known s a = (info : ValInfo) × (s.all_validators a ≡ some info)

-- The entries of the validators `vs`.
abbrev pub infos :
    (m : Address → Option ValInfo) (vs : List Address)
    → All (λ a. (info : ValInfo) × (m a ≡ some info)) vs
    → List ValInfo
infos m [] known = []
infos m (v ∷ vs) known = known.0.0 ∷ infos m vs known.1

pub All-elem :
    {C : Type 0} (s : RedTNode C) (vs : List Address) (i : ℕ) (a : Address)
    → All (Known s) vs
    → get_elem? vs i ≡ some a
    → Known s a
All-elem s [] i a known h = absurd (cc)
All-elem s (v ∷ vs) zero a known h = subst (Known s) (some-injective v a h) known.0
All-elem s (v ∷ vs) (suc i) a known h = All-elem s vs i a known.1 h

module _ (g : Geth) (s : Node g) where
  -- One row for each validator, in the order of the set.
  pub for_validators-map {ℓ} :
      {A : Type ℓ} (row : ValInfo → A) (vs : List Address) (known : All (Known s) vs)
      → for_validators g row vs s ≡ (returned (map row (infos s.all_validators vs known)), s)
  unfolding for_validators
  for_validators-map row [] known = refl
  for_validators-map row (v ∷ vs) known = rw (known.0.1, for_validators-map row vs known.1)

  pub next_operator-Known :
      (author : Address)
      → 0 < length s.val_set
      → All (Known s) s.val_set
      → (text : Text) × (next_operator g author s ≡ (returned text, s))
  unfolding next_operator validators
  next_operator-Known author some_one known =
      let (i, b, found, next) = next_proposer-member s.val_set author some_one in
      let (info, listed) = All-elem s s.val_set i b known found in
      (info.operator, rw next (rw listed))

  -- The entry that the terminal shows for a block.
  pub record Entry (number : ℤ) (h : Header) (latest : ℕ) (author : Address) (e : Shown)
      : Type 0 where
    pub numbered : e.number ≡ number
    pub timed : e.elapsed ≡ elapsed_since h.time latest
    pub authored : e.author ≡ author
    pub counted : e.author_count ≡ s.as_proposer author

  pub show_block-Known :
      (number : ℤ) (h : Header) (latest : ℕ) (author : Address) (signers : List Address)
      → 0 < length s.val_set
      → All (Known s) s.val_set
      → Known s author
      → (e : Shown) × (show_block g number h latest author signers s
          ≡ (returned h.time, record s { screen = s.screen ++ e ∷ [] }))
        × Entry number h latest author e
  unfolding show_block validators
  show_block-Known number h latest author signers some_one known (info, listed) =
      let (text, next) = next_operator-Known author some_one known in
      let lines = for_validators-map (terminal_line g author signers s) s.val_set known in
      (
        record {
          number = number;
          elapsed = elapsed_since h.time latest;
          late = ltb 5 (elapsed_since h.time latest);
          timestamp = int64 (pos h.time);
          operator = info.operator;
          author_count = s.as_proposer author;
          author = author;
          gas_limit = h.gas_limit;
          gas_used = h.gas_used;
          lines = map (terminal_line g author signers s) (infos s.all_validators s.val_set known);
        },
        rw next (rw listed (rw lines)),
        record { numbered = refl; timed = refl; authored = refl; counted = refl },
      )
