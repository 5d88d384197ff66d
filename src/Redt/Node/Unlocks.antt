-- ===== src/Redt/Node/Unlocks.antt =====
-- countersLock in redt/redt.go: a call that ends and leaves it free.
use signers.Base.{◌+◌, Option, none, some}
use signers.Base.Int.{ℤ}
use signers.Base.Exec.{Outcome, returned, exited, panicked, blocked, Exec, continue, ◌>>=◌}
use signers.Redt.Types.{Header, Reply, value, null, failed, partial, Geth}
use signers.Redt.Node.{Node, header_by_number, found_or_fetch, store_header, to_block_num_arg}
use signers.Redt.Stats.Counting.{IsFree}

-- The call ended, one way or another.
abbrev pub Ended {ℓ} : {A : Type ℓ} → Outcome A → Type 0
Ended blocked = ⊥
Ended _ = Unit

module _ (g : Geth) where
  -- The call ended and the lock is free.
  abbrev pub Unlocked {ℓ} : {A : Type ℓ} → Outcome A × Node g → Type 0
  Unlocked (o, t) = Ended o × IsFree t

  module _ {A B : Type 0} where
    Unlocked-continue :
        (o : Outcome A) (t : Node g) (f : A → Exec (Node g) B)
        → Unlocked (o, t)
        → ((a : A) → Unlocked (f a t))
        → Unlocked (continue o f t)
    Unlocked-continue (returned a) t f h k = k a
    Unlocked-continue exited t f h k = h
    Unlocked-continue panicked t f h k = h
    Unlocked-continue blocked t f h k = absurd h.0

    pub Unlocked-bind :
        (m : Exec (Node g) A) (f : A → Exec (Node g) B) (s : Node g)
        → Unlocked (m s)
        → ((a : A) (t : Node g) → IsFree t → Unlocked (f a t))
        → Unlocked ((m >>= f) s)
    Unlocked-bind m f s h k = Unlocked-continue (m s).0 (m s).1 f h (λ a. k a (m s).1 h.1)

  pub header_by_number-Unlocked :
      (number : ℤ) (s : Node g) → IsFree s → Unlocked (header_by_number g number s)
  unfolding header_by_number store_header
  header_by_number-Unlocked number s free =
      by_lookup (g.cache_get s.header_cache number).0
        (record s { header_cache = (g.cache_get s.header_cache number).1 }) free
    where
      stored : (reply : Reply Header) (t : Node g) → IsFree t → Unlocked (store_header g reply t)
      stored (value h) t f = (tt, f)
      stored null t f = (tt, f)
      stored failed t f = (tt, f)
      stored (partial h) t f = (tt, f)

      by_lookup :
          (o : Option Header) (t : Node g) → IsFree t → Unlocked (found_or_fetch g number o t)
      by_lookup (some h) t f = (tt, f)
      by_lookup none t f =
          stored (g.get_block t.calls (to_block_num_arg number)) (record t { calls = t.calls + 1 })
            f
