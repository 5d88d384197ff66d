-- ===== src/Base/Exec.antt =====
-- Go code over a shared state. An error value is an ordinary result; a call that does not return is
-- an outcome: the process exits (`log.Fatal`), the goroutine panics, or it waits for a lock.

-- The error values that the program tells apart or makes; `failed` is one of a library it calls.
pub data Error : Type 0 where
  not_found : Error
  not_initialised : Error
  genesis_reached : Error
  null_scan : Error
  no_rows : Error
  failed : Error

pub data Result {ℓ} (A : Type ℓ) : Type ℓ where
  ok : A → Result A
  err : Error → Result A

pub data Outcome {ℓ} (A : Type ℓ) : Type ℓ where
  returned : A → Outcome A
  exited : Outcome A
  panicked : Outcome A
  blocked : Outcome A

abbrev pub Exec {ℓ κ} : Type ℓ → Type κ → Type (ℓ ⊔ κ)
Exec S A = S → Outcome A × S

module _ {ℓ κ} {S : Type ℓ} {A : Type κ} where
  abbrev pub pure : A → Exec S A
  pure a s = (returned a, s)

  abbrev pub stop : Outcome A → Exec S A
  stop o s = (o, s)

  abbrev pub gets : (S → A) → Exec S A
  gets f s = (returned (f s), s)

abbrev pub modify {ℓ} : {S : Type ℓ} → (S → S) → Exec S (Unit {0})
modify f s = (returned tt, f s)

module _ {ℓ κ μ} {S : Type ℓ} {A : Type κ} {B : Type μ} where
  abbrev pub continue : Outcome A → (A → Exec S B) → Exec S B
  continue (returned a) f s = f a s
  continue exited f s = (exited, s)
  continue panicked f s = (panicked, s)
  continue blocked f s = (blocked, s)

  infixl 10 ◌>>=◌ ◌>>◌
  abbrev pub ◌>>=◌ : Exec S A → (A → Exec S B) → Exec S B
  ◌>>=◌ m f s = let (o, s') = m s in continue o f s'

  abbrev pub ◌>>◌ : Exec S A → Exec S B → Exec S B
  m >> n = m >>= λ _. n

-- `if err != nil { log.Fatal() }`
abbrev pub or_exit {ℓ κ} : {S : Type ℓ} {A : Type κ} → Result A → Exec S A
or_exit (ok a) s = (returned a, s)
or_exit (err e) s = (exited, s)

module _ {ℓ κ} {S : Type ℓ} {A : Type κ} where
  -- A deferred call runs when the function returns or panics, and not when the process exits.
  abbrev pub after : Outcome A → (S → S) → S → S
  after (returned a) d s = d s
  after panicked d s = d s
  after exited d s = s
  after blocked d s = s

  abbrev pub deferred : (S → S) → Exec S A → Exec S A
  deferred d m s = let (o, s') = m s in (o, after o d s')
