-- ===== src/Redt/Node.antt =====
-- redt/redt.go: the state of a RedTNode, its lock, its header cache and the calls of the node.
pub mod Cache
pub mod Unlocks
pub mod Chain
pub mod Numbers
use signers.Base.{
  ℕ, ◌+◌, ◌-◌, Bool, true, false, ◌||◌, List, ◌∷◌, ◌++◌, Option, none, some, ltb, if◌then◌else◌,
}
use signers.Base.Int.{ℤ, pos, negsuc, eqb_ℤ}
use signers.Base.Text.{Text, codes, print}
use signers.Base.Exec.{
  Error, Result, ok, err, not_found, Outcome, returned, exited, panicked, blocked, Exec, pure, stop,
  gets, modify, continue, deferred, ◌>>=◌, ◌>>◌,
}
use signers.Redt.Types.{
  Address, Header, block_number, ValInfo, Reply, value, null, failed, partial, Geth,
}

-- A line of the terminal table for one validator: its counters, red at zero, and the marks.
pub record Cell : Type 0 where
  pub count : ℕ
  pub red : Bool
  pub mark : Bool

pub record Line : Type 0 where
  pub author : Cell
  pub signer : Cell
  pub operator : Text
  pub address : Address

-- What the terminal shows for one block.
pub record Shown : Type 0 where
  pub number : ℤ
  pub elapsed : ℕ
  pub late : Bool
  pub timestamp : ℤ
  pub operator : Text
  pub author_count : ℕ
  pub author : Address
  pub gas_limit : ℕ
  pub gas_used : ℕ
  pub lines : List Line

-- `locked` and `readers` are the RWMutex; `calls` counts the RPC calls; `screen` is what was
-- shown of the blocks, and `printed` the other output. A counter is the 64-bit pattern of a Go int. The spinner is left out.
pub record RedTNode (Cache : Type 0) : Type 0 where
  pub locked : Bool
  pub readers : ℕ
  pub header_cache : Cache
  pub val_set : List Address
  pub all_validators : Address → Option ValInfo
  pub as_proposer : Address → ℕ
  pub as_signer : Address → ℕ
  pub last_block_processed : ℤ
  pub calls : ℕ
  pub screen : List Shown
  pub printed : List Text

-- `latest` for -1; otherwise fmt's 0x%X, which prints the sign of a negative number.
unfoldable pub to_block_num_arg : ℤ → Text
unfolding print
to_block_num_arg (pos n) = codes "0x" ++ print 16 65 n
to_block_num_arg (negsuc n) =
    if eqb_ℤ (negsuc n) (negsuc 0) then codes "latest" else codes "0x-" ++ print 16 65 (n + 1)

module _ {ℓ} {C : Type 0} {A : Type ℓ} where
  -- countersLock.Lock(), with countersLock.Unlock() deferred: a held lock is waited for, also by
  -- the goroutine that holds it.
  abbrev pub with_lock : Exec (RedTNode C) A → Exec (RedTNode C) A
  with_lock m s =
      if s.locked || ltb 0 s.readers
      then (blocked, s)
      else deferred (λ t. record t { locked = false }) m (record s { locked = true })

  -- countersLock.RLock(), with countersLock.RUnlock() deferred.
  abbrev pub with_rlock : Exec (RedTNode C) A → Exec (RedTNode C) A
  with_rlock m s =
      if s.locked
      then (blocked, s)
      else deferred (λ t. record t { readers = t.readers - 1 }) m
          (record s { readers = s.readers + 1 })

module _ (g : Geth) where
  open g use {Cache, cache_get, cache_add, get_block}

  abbrev pub Node : Type 0
  Node = RedTNode Cache

  -- headerCache.Get: a hit may reorder the cache.
  cached_header : ℤ → Exec Node (Option Header)
  cached_header number s =
      let found = cache_get s.header_cache number in
      (returned found.0, record s { header_cache = found.1 })

  call_get_block : ℤ → Exec Node (Reply Header)
  unfolding to_block_num_arg
  call_get_block number s =
      (returned (get_block s.calls (to_block_num_arg number)), record s { calls = s.calls + 1 })

  -- What follows the call: a header that comes with an error is used as if it were complete, and a
  -- nil header, or a nil number, as if it were there.
  store_header : Reply Header → Exec Node (Result Header)
  store_header null s = (returned (err not_found), s)
  store_header failed s = (panicked, s)
  store_header (partial h) s = (
    returned (err Error.failed),
    record s { header_cache = cache_add s.header_cache (block_number h) h },
  )
  store_header (value h) s =
      (returned (ok h), record s { header_cache = cache_add s.header_cache (block_number h) h })

  found_or_fetch : ℤ → Option Header → Exec Node (Result Header)
  unfolding call_get_block store_header
  found_or_fetch number (some h) = pure (ok h)
  found_or_fetch number none = do reply ← call_get_block number; store_header reply

  unfoldable pub header_by_number : ℤ → Exec Node (Result Header)
  unfolding cached_header found_or_fetch
  header_by_number number = do cached ← cached_header number; found_or_fetch number cached

  unfoldable pub number_of_result : Result Header → Result ℤ
  number_of_result (ok h) = ok (block_number h)
  number_of_result (err e) = err e

  unfoldable pub current_block_number : Exec Node (Result ℤ)
  unfolding header_by_number number_of_result
  current_block_number = do header ← header_by_number (negsuc 0); pure (number_of_result header)

  unfoldable pub validators : Node → List Address
  validators s = s.val_set

  -- A missing key gives a nil pointer.
  unfoldable pub validator_info : Node → Address → Option ValInfo
  validator_info s a = s.all_validators a
