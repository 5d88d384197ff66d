-- ===== src/Redt/Stats/Unlocks.antt =====
-- UpdateStatisticsForBlock (redt/redt.go) ends and leaves the lock free.
use signers.Base.{Bool-cases, inl, inr, refl, List, [], ◌∷◌}
use signers.Base.Text.{Text}
use signers.Base.Int.{leb_ℤ}
use signers.Base.Exec.{Result, ok, err, Outcome, returned, exited, panicked, blocked, stop}
use signers.Redt.Types.{Address, Header, block_number, IstanbulExtra, Geth}
use signers.Redt.Node.{Node, with_lock}
use signers.Redt.Node.Unlocks.{Ended, Unlocked, Unlocked-bind}
use signers.Redt.Stats.{
  signers_from_block, recover_author, recover_seals, add_signer, with_author, count_block,
  update_statistics_for_block, sig_hash,
}
use signers.Redt.Stats.Counting.{IsFree}

module _ (g : Geth) where
  add_signer-Ended : (a : Address) (o : Outcome (List Address)) → Ended o → Ended (add_signer g a o)
  add_signer-Ended a (returned l) h = h
  add_signer-Ended a exited h = h
  add_signer-Ended a panicked h = h
  add_signer-Ended a blocked h = h

  with_author-Ended :
      (a : Address) (o : Outcome (List Address)) → Ended o → Ended (with_author g a o)
  with_author-Ended a (returned l) h = h
  with_author-Ended a exited h = h
  with_author-Ended a panicked h = h
  with_author-Ended a blocked h = h

  recover_seals-Ended :
      (proposal_seal : Text) (seals : List Text) → Ended (recover_seals g proposal_seal seals)
  unfolding recover_seals
  recover_seals-Ended proposal_seal [] = tt
  recover_seals-Ended proposal_seal (seal ∷ seals) =
      by_seal (recover_seals-Ended proposal_seal seals) (g.signature_address proposal_seal seal)
    where
      by_seal :
          Ended (recover_seals g proposal_seal seals)
          → (r : Result Address)
          → Ended (elim r [
            | ok a ↦ add_signer g a (recover_seals g proposal_seal seals)
            | err e ↦ exited
          ])
      by_seal ended (ok a) = add_signer-Ended a (recover_seals g proposal_seal seals) ended
      by_seal ended (err e) = tt

  recover_author-Ended : (h : Header) (extra : IstanbulExtra) → Ended (recover_author g h extra)
  unfolding recover_author
  recover_author-Ended h extra = by_author (g.signature_address (sig_hash g h) extra.seal)
    where
      seals : Outcome (List Address)
      seals = recover_seals g (g.prepare_committed_seal (g.header_hash h)) extra.committed_seal

      by_author :
          (r : Result Address)
          → Ended (elim r [ ok author ↦ with_author g author seals | err e ↦ exited ])
      by_author (ok author) = with_author-Ended author seals (recover_seals-Ended _ _)
      by_author (err e) = tt

  signers_from_block-Ended : (h : Header) → Ended (signers_from_block g h)
  unfolding signers_from_block
  signers_from_block-Ended h = by_extra (g.extract_extra h)
    where
      by_extra :
          (r : Result IstanbulExtra)
          → Ended (elim r [ ok extra ↦ recover_author g h extra | err e ↦ exited ])
      by_extra (ok extra) = recover_author-Ended h extra
      by_extra (err e) = tt

  count_block-Unlocked :
      (h : Header) (found : Address × List Address) (s : Node g)
      → IsFree s
      → Unlocked g (with_lock (count_block g h found) s)
  unfolding count_block
  count_block-Unlocked h (author, signers) s (unlocked, quiet) =
      rw (unlocked, quiet)
        (elim (Bool-cases (leb_ℤ (block_number h) s.last_block_processed)) [
          | inl stale ↦ rw stale (tt, (refl, refl))
          | inr fresh ↦ rw fresh (tt, (refl, refl))
        ])

  pub update_statistics_for_block-Unlocked :
      (h : Header) (s : Node g) → IsFree s → Unlocked g (update_statistics_for_block g h s)
  unfolding update_statistics_for_block
  update_statistics_for_block-Unlocked h s free =
      Unlocked-bind g (stop (signers_from_block g h)) (λ found. with_lock (count_block g h found)) s
        (signers_from_block-Ended h, free) (λ found t free'. count_block-Unlocked h found t free')
