-- ===== src/Base/Fallible.antt =====
-- Go functions that return an error: `if err != nil { return err }` after each call.
use signers.Base.Exec.{Error, Result, ok, err, Outcome, returned, exited, panicked, blocked, Exec}

abbrev pub Try {ℓ κ} : Type ℓ → Type κ → Type (ℓ ⊔ κ)
Try S A = Exec S (Result A)

module _ {ℓ κ} {S : Type ℓ} {A : Type κ} where
  abbrev pub succeed : A → Try S A
  succeed a s = (returned (ok a), s)

  abbrev pub fail : Error → Try S A
  fail e s = (returned (err e), s)

  abbrev pub pass : Result A → Try S A
  pass r s = (returned r, s)

module _ {ℓ κ μ} {S : Type ℓ} {A : Type κ} {B : Type μ} where
  abbrev pub proceed : Outcome (Result A) → (A → Try S B) → Try S B
  proceed (returned (ok a)) f s = f a s
  proceed (returned (err e)) f s = (returned (err e), s)
  proceed exited f s = (exited, s)
  proceed panicked f s = (panicked, s)
  proceed blocked f s = (blocked, s)

  infixl 10 ◌>>=◌ ◌>>◌
  abbrev pub ◌>>=◌ : Try S A → (A → Try S B) → Try S B
  ◌>>=◌ m f s = let (o, s') = m s in proceed o f s'

  abbrev pub ◌>>◌ : Try S A → Try S B → Try S B
  m >> n = m >>= λ _. n

-- A call whose error is dropped.
abbrev pub unchecked_result : {A : Type 0} → Outcome (Result A) → Outcome (Result (Unit {0}))
unchecked_result (returned r) = returned (ok tt)
unchecked_result exited = exited
unchecked_result panicked = panicked
unchecked_result blocked = blocked

abbrev pub unchecked {ℓ} : {S : Type ℓ} {A : Type 0} → Try S A → Try S (Unit {0})
unchecked m s = let (o, s') = m s in (unchecked_result o, s')

-- A call that returns no error.
abbrev pub called_result {ℓ} : {A : Type ℓ} → Outcome A → Outcome (Result A)
called_result (returned a) = returned (ok a)
called_result exited = exited
called_result panicked = panicked
called_result blocked = blocked

abbrev pub called {ℓ κ} : {S : Type ℓ} {A : Type κ} → Exec S A → Try S A
called m s = let (o, s') = m s in (called_result o, s')
