-- ===== src/Base/Ends.antt =====
-- Postconditions of functions that return an error: one for success, one for every other end.
use signers.Base.Exec.{Result, ok, err, Outcome, returned, exited, panicked, blocked}
use signers.Base.Fallible.{Try, proceed, ◌>>=◌}

module _ {S A : Type 0} where
  abbrev pub Ends : (A → S → Type 0) → (S → Type 0) → Outcome (Result A) × S → Type 0
  Ends P E (returned (ok a), t) = P a t
  Ends P E (returned (err e), t) = E t
  Ends P E (exited, t) = E t
  Ends P E (panicked, t) = E t
  Ends P E (blocked, t) = E t

module _ {S A B : Type 0} where
  Ends-proceed :
      (P : A → S → Type 0) (Q : B → S → Type 0) (E : S → Type 0) (o : Outcome (Result A)) (t : S)
      (f : A → Try S B)
      → Ends P E (o, t)
      → ((a : A) (u : S) → P a u → Ends Q E (f a u))
      → Ends Q E (proceed o f t)
  Ends-proceed P Q E (returned (ok a)) t f h k = k a t h
  Ends-proceed P Q E (returned (err e)) t f h k = h
  Ends-proceed P Q E exited t f h k = h
  Ends-proceed P Q E panicked t f h k = h
  Ends-proceed P Q E blocked t f h k = h

  pub Ends-bind :
      (P : A → S → Type 0) (Q : B → S → Type 0) (E : S → Type 0) (m : Try S A) (f : A → Try S B)
      (s : S)
      → Ends P E (m s)
      → ((a : A) (u : S) → P a u → Ends Q E (f a u))
      → Ends Q E ((m >>= f) s)
  Ends-bind P Q E m f s h k = Ends-proceed P Q E (m s).0 (m s).1 f h k

module _ {S A : Type 0} where
  Ends-weaken_result :
      (P Q : A → S → Type 0) (E F : S → Type 0) (o : Outcome (Result A)) (t : S)
      → Ends P E (o, t)
      → ((a : A) (u : S) → P a u → Q a u)
      → ((u : S) → E u → F u)
      → Ends Q F (o, t)
  Ends-weaken_result P Q E F (returned (ok a)) t h k l = k a t h
  Ends-weaken_result P Q E F (returned (err e)) t h k l = l t h
  Ends-weaken_result P Q E F exited t h k l = l t h
  Ends-weaken_result P Q E F panicked t h k l = l t h
  Ends-weaken_result P Q E F blocked t h k l = l t h

  pub Ends-weaken :
      (P Q : A → S → Type 0) (E F : S → Type 0) (r : Outcome (Result A) × S)
      → Ends P E r
      → ((a : A) (u : S) → P a u → Q a u)
      → ((u : S) → E u → F u)
      → Ends Q F r
  Ends-weaken P Q E F r h k l = Ends-weaken_result P Q E F r.0 r.1 h k l

  Ends-both_result :
      (P Q : A → S → Type 0) (E F : S → Type 0) (o : Outcome (Result A)) (t : S)
      → Ends P E (o, t)
      → Ends Q F (o, t)
      → Ends (λ a u. P a u × Q a u) (λ u. E u × F u) (o, t)
  Ends-both_result P Q E F (returned (ok a)) t h k = (h, k)
  Ends-both_result P Q E F (returned (err e)) t h k = (h, k)
  Ends-both_result P Q E F exited t h k = (h, k)
  Ends-both_result P Q E F panicked t h k = (h, k)
  Ends-both_result P Q E F blocked t h k = (h, k)

  pub Ends-both :
      (P Q : A → S → Type 0) (E F : S → Type 0) (r : Outcome (Result A) × S)
      → Ends P E r
      → Ends Q F r
      → Ends (λ a u. P a u × Q a u) (λ u. E u × F u) r
  Ends-both P Q E F r h k = Ends-both_result P Q E F r.0 r.1 h k
