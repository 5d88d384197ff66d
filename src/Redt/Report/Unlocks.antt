-- ===== src/Redt/Report/Unlocks.antt =====
-- SignersForHeader (redt/redt.go) ends and leaves countersLock free, also when it panics.
use signers.Base.{
  ℕ, ◌+◌, ◌-◌, ◌≡◌, refl, List, [], ◌∷◌, Option, none, some, arith, get_elem?, sym, if◌then◌else◌,
  ap, ◌∙◌, false,
}
use mathlib.Core.Path.{subst}
use signers.Base.Text.{Text}
use signers.Base.Exec.{
  Outcome, returned, exited, panicked, blocked, Exec, after, deferred, continue, stop, ◌>>=◌,
}
use signers.Redt.Types.{Address, Header, ValInfo, Geth}
use signers.Redt.Node.{Node, validators, with_rlock}
use signers.Redt.Node.Unlocks.{Ended, Unlocked, Unlocked-bind}
use signers.Redt.Stats.{update_statistics_for_block}
use signers.Redt.Stats.Unlocks.{update_statistics_for_block-Unlocked}
use signers.Redt.Stats.Counting.{IsFree}
use signers.Redt.Report.{
  next_operator, next_proposer, next_index, for_validators, read_report, signers_for_header,
  or_panic, report_row,
}

-- A call that returned or panicked: its deferred calls were made.
abbrev Settled {ℓ} : {A : Type ℓ} → Outcome A → Type 0
Settled (returned a) = Unit
Settled panicked = Unit
Settled _ = ⊥

module _ (g : Geth) where
  -- The call returned or panicked, and changed nothing.
  abbrev Reads : {A : Type 0} → Outcome A × Node g → Node g → Type 0
  Reads (o, t) s = Settled o × (t ≡ s)

  or_panic-Settled : {A : Type 0} (o : Option A) → Settled (or_panic o)
  or_panic-Settled none = tt
  or_panic-Settled (some a) = tt

  module _ {A B : Type 0} where
    Reads-continue :
        (o : Outcome A) (s : Node g) (f : A → Exec (Node g) B)
        → Settled o
        → ((a : A) → Reads (f a s) s)
        → Reads (continue o f s) s
    Reads-continue (returned a) s f h k = k a
    Reads-continue exited s f h k = absurd h
    Reads-continue panicked s f h k = (tt, refl)
    Reads-continue blocked s f h k = absurd h

    Reads-bind :
        (m : Exec (Node g) A) (f : A → Exec (Node g) B) (s : Node g)
        → Reads (m s) s
        → ((a : A) → Reads (f a s) s)
        → Reads ((m >>= f) s) s
    Reads-bind m f s (ended, same) k =
        subst (λ t. Reads (continue (m s).0 f t) s) (sym same) (Reads-continue (m s).0 s f ended k)

    stop-Reads :
        (o : Option A) (f : A → Exec (Node g) B) (s : Node g)
        → ((a : A) → Reads (f a s) s)
        → Reads ((stop (or_panic o) >>= f) s) s
    stop-Reads o f s = Reads-bind (stop (or_panic o)) f s (or_panic-Settled o, refl)

  next_operator-Reads : (author : Address) (s : Node g) → Reads (next_operator g author s) s
  unfolding next_operator next_proposer validators
  next_operator-Reads author s =
      stop-Reads (get_elem? s.val_set (next_index author s.val_set)) _ s
        (λ next. stop-Reads (s.all_validators next) _ s (λ item. (tt, refl)))

  for_validators-Reads :
      {A : Type 0} (row : ValInfo → A) (vs : List Address) (s : Node g)
      → Reads (for_validators g row vs s) s
  unfolding for_validators
  for_validators-Reads row [] s = (tt, refl)
  for_validators-Reads row (v ∷ vs) s =
      let rest = for_validators-Reads row vs s in
      stop-Reads (s.all_validators v) _ s
        (λ item. Reads-bind (for_validators g row vs) _ s rest (λ rows. (tt, refl)))

  read_report-Reads :
      (h : Header) (latest : ℕ) (author : Address) (signers : List Address) (next : Text)
      (s : Node g)
      → Reads (read_report g h latest author signers next s) s
  unfolding read_report validators
  read_report-Reads h latest author signers next s =
      stop-Reads (s.all_validators author) _ s (λ oper.
        Reads-bind (for_validators g (report_row g author signers s) s.val_set) _ s
          (for_validators-Reads (report_row g author signers s) s.val_set s) (λ rows. (tt, refl)))

  Settled-Ended : {A : Type 0} (o : Outcome A) → Settled o → Ended o
  Settled-Ended (returned a) h = tt
  Settled-Ended exited h = tt
  Settled-Ended panicked h = tt
  Settled-Ended blocked h = h

  Reads-Unlocked :
      {A : Type 0} (r : Outcome A × Node g) (s : Node g) → IsFree s → Reads r s → Unlocked g r
  Reads-Unlocked (o, t) s free (settled, same) =
      (Settled-Ended o settled, subst IsFree (sym same) free)

  after_read :
      {A : Type 0} (o : Outcome A) (s : Node g)
      → s.locked ≡ false
      → s.readers ≡ 1
      → Settled o
      → Unlocked g (o, after o (λ t. record t { readers = t.readers - 1 }) s)
  after_read (returned a) s unlocked one settled = (tt, (unlocked, omega arith))
  after_read exited s unlocked one settled = absurd settled
  after_read panicked s unlocked one settled = (tt, (unlocked, omega arith))
  after_read blocked s unlocked one settled = absurd settled

  with_rlock-Unlocked :
      {A : Type 0} (m : Exec (Node g) A) (s : Node g)
      → IsFree s
      → ((t : Node g) → Reads (m t) t)
      → Unlocked g (with_rlock m s)
  with_rlock-Unlocked m s (unlocked, quiet) reads =
      let t : Node g = record s { readers = s.readers + 1 } in
      let (settled, same) = reads t in
      let one : (m t).1.readers ≡ 1 = omega (arith, ap (λ u. u.readers) same) in
      subst
        (λ b.
          Unlocked g
            (if b then (blocked, s) else deferred (λ u. record u { readers = u.readers - 1 }) m t))
        (sym unlocked) (after_read (m t).0 (m t).1 (ap (λ u. u.locked) same ∙ unlocked) one settled)

  -- A call of SignersForHeader that finds the lock free never waits for it, and whether it returns,
  -- panics or ends the process, the lock is free afterwards: no writer and no reader holds it.
  pub signers_for_header-Unlocked :
      (h : Header) (latest : ℕ) (s : Node g)
      → IsFree s
      → Unlocked g (signers_for_header g h latest s)
  unfolding signers_for_header
  signers_for_header-Unlocked h latest s free =
      Unlocked-bind g (update_statistics_for_block g h) _ s
        (update_statistics_for_block-Unlocked g h s free)
        (λ found t free'.
          Unlocked-bind g (next_operator g found.0) _ t
            (Reads-Unlocked (next_operator g found.0 t) t free' (next_operator-Reads found.0 t))
            (λ next u free''.
              Unlocked-bind g (with_rlock (read_report g h latest found.0 found.1 next)) _ u
                (with_rlock-Unlocked (read_report g h latest found.0 found.1 next) u free''
                  (read_report-Reads h latest found.0 found.1 next))
                (λ report v still. (tt, still))))
