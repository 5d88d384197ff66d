-- ===== src/Redt/Node/Cache.antt =====
-- The header cache of HeaderByNumber (redt/redt.go).
use signers.Base.{◌+◌, ◌≡◌, refl, ◌⊎◌, none, some, arith}
use mathlib.Core.Path.{subst}
use signers.Base.Int.{ℤ}
use signers.Base.Exec.{Error, ok, err, not_found, returned, panicked}
use signers.Redt.Types.{Header, block_number, Reply, value, null, failed, partial, Geth}
use signers.Redt.Node.{Node, to_block_num_arg, header_by_number}

-- What golang-lru documents: a lookup changes no entry, an added entry is found, and every entry
-- found was the last added under its key.
pub record CacheLaws (g : Geth) : Type 0 where
  pub get_keeps :
      (c : g.Cache) (i j : ℤ) → (g.cache_get (g.cache_get c i).1 j).0 ≡ (g.cache_get c j).0
  pub add_found :
      (c : g.Cache) (i : ℤ) (h : Header) → (g.cache_get (g.cache_add c i h) i).0 ≡ some h
  pub add_sound :
      (c : g.Cache) (i j : ℤ) (h x : Header)
      → (g.cache_get (g.cache_add c i h) j).0 ≡ some x
      → ((j ≡ i) × (x ≡ h)) ⊎ ((g.cache_get c j).0 ≡ some x)

module _ (g : Geth) (i : ℤ) (s : Node g) where
  abbrev pub answer : Reply Header
  answer = g.get_block s.calls (to_block_num_arg i)

  abbrev pub looked_up : g.Cache
  looked_up = (g.cache_get s.header_cache i).1

  pub header_by_number_hit :
      {h : Header}
      → (g.cache_get s.header_cache i).0 ≡ some h
      → header_by_number g i s ≡ (returned (ok h), record s { header_cache = looked_up })
  unfolding header_by_number
  header_by_number_hit hit = ground arith

  pub header_by_number_value :
      {h : Header}
      → (g.cache_get s.header_cache i).0 ≡ none
      → answer ≡ value h
      → header_by_number g i s ≡ (
        returned (ok h),
        record s { header_cache = g.cache_add looked_up (block_number h) h; calls = s.calls + 1 },
      )
  unfolding header_by_number
  header_by_number_value miss e = ground arith

  pub header_by_number_null :
      (g.cache_get s.header_cache i).0 ≡ none
      → answer ≡ null
      → header_by_number g i s
        ≡ (returned (err not_found), record s { header_cache = looked_up; calls = s.calls + 1 })
  unfolding header_by_number
  header_by_number_null miss e = ground arith

  pub calls_miss :
      (g.cache_get s.header_cache i).0 ≡ none → (header_by_number g i s).1.calls ≡ s.calls + 1
  unfolding header_by_number
  calls_miss miss = ground arith

  pub header_by_number_failed :
      (g.cache_get s.header_cache i).0 ≡ none
      → answer ≡ failed
      → header_by_number g i s
        ≡ (panicked, record s { header_cache = looked_up; calls = s.calls + 1 })
  unfolding header_by_number
  header_by_number_failed miss e = ground arith

  pub header_by_number_partial :
      {h : Header}
      → (g.cache_get s.header_cache i).0 ≡ none
      → answer ≡ partial h
      → header_by_number g i s ≡ (
        returned (err Error.failed),
        record s { header_cache = g.cache_add looked_up (block_number h) h; calls = s.calls + 1 },
      )
  unfolding header_by_number
  header_by_number_partial miss e = ground arith

-- The same number asked twice costs one call: the block that answers a number is found in the
-- cache by the next lookup of that number, which returns it and makes no call.
pub header_by_number_again :
    (g : Geth) (laws : CacheLaws g) (i : ℤ) (s : Node g) (h : Header)
    → (g.cache_get s.header_cache i).0 ≡ none
    → g.get_block s.calls (to_block_num_arg i) ≡ value h
    → block_number h ≡ i
    → let t = (header_by_number g i s).1 in
      let (o, u) = header_by_number g i t in
      (o ≡ returned (ok h)) × (t.calls ≡ s.calls + 1) × (u.calls ≡ s.calls + 1)
header_by_number_again g laws i s h miss e same =
    let c = looked_up g i s in
    let t : Node g = record s {
      header_cache = g.cache_add c (block_number h) h;
      calls = s.calls + 1;
    } in
    let hit =
      subst (λ k. (g.cache_get (g.cache_add c (block_number h) h) k).0 ≡ some h) same
        (laws.add_found c (block_number h) h) in
    rw (header_by_number_value g i s miss e)
      (rw (header_by_number_hit g i t hit) (refl, refl, refl))

-- An answer that breaks off in a header, after its number, is an error, and stays in the cache: the
-- next lookup of the same number makes no call and returns the header as it was left, without an
-- error.
pub header_by_number_poisoned :
    (g : Geth) (laws : CacheLaws g) (i : ℤ) (s : Node g) (h : Header)
    → (g.cache_get s.header_cache i).0 ≡ none
    → g.get_block s.calls (to_block_num_arg i) ≡ partial h
    → block_number h ≡ i
    → let (o, t) = header_by_number g i s in
      let (o', u) = header_by_number g i t in
      (o ≡ returned (err Error.failed)) × (o' ≡ returned (ok h)) × (u.calls ≡ s.calls + 1)
header_by_number_poisoned g laws i s h miss e same =
    let c = looked_up g i s in
    let t : Node g = record s {
      header_cache = g.cache_add c (block_number h) h;
      calls = s.calls + 1;
    } in
    let hit =
      subst (λ k. (g.cache_get (g.cache_add c (block_number h) h) k).0 ≡ some h) same
        (laws.add_found c (block_number h) h) in
    rw (header_by_number_partial g i s miss e)
      (rw (header_by_number_hit g i t hit) (refl, refl, refl))
