-- ===== src/Redt/Node/Chain.antt =====
-- The chain behind the node, and the headers that HeaderByNumber returns (redt/redt.go).
use signers.Base.{
  ℕ, ◌+◌, ◌^◌, ◌<◌, ◌≡◌, ◌≢◌, refl, sym, ◌∙◌, inl, inr, Option, none, some, Option-cases,
}
use mathlib.Core.Path.{subst}
use signers.Base.Int.{ℤ, pos, negsuc, int64-pos}
use signers.Base.Text.{Text}
use signers.Base.Exec.{Result, ok, err, Outcome, returned, exited, panicked, blocked}
use signers.Base.Ends.{Ends}
use signers.Redt.Types.{Header, block_number, Reply, value, null, failed, partial, Geth}
use signers.Redt.Node.{Node, to_block_num_arg, header_by_number}
use signers.Redt.Node.Cache.{
  CacheLaws, answer, looked_up, calls_miss, header_by_number_hit, header_by_number_value,
  header_by_number_null, header_by_number_failed,
}

-- The node answers from one chain of blocks, by an int64 number and with its newest block, and no
-- answer breaks off in a header.
pub record Chain (g : Geth) (chain : ℕ → Header) : Type 0 where
  pub numbered : (n : ℕ) → (chain n).number ≡ n
  pub by_number :
      (c n : ℕ) (h : Header)
      → n < 2 ^ 63
      → g.get_block c (to_block_num_arg (pos n)) ≡ value h
      → h ≡ chain n
  pub complete : (c : ℕ) (t : Text) (h : Header) → g.get_block c t ≢ partial h
  pub newest :
      (c : ℕ) (h : Header)
      → g.get_block c (to_block_num_arg (negsuc 0)) ≡ value h
      → (n : ℕ) × (n < 2 ^ 63) × (h ≡ chain n)

no_entry : (o : Option Header) → ((h : Header) → o ≢ some h) → o ≡ none
no_entry none never = refl
no_entry (some h) never = absurd (never h refl)

-- Every entry is the chain's block of its key.
abbrev pub Coherent : (g : Geth) → (ℕ → Header) → g.Cache → Type 0
Coherent g chain c =
    (k : ℤ) (h : Header)
    → (g.cache_get c k).0 ≡ some h
    → (n : ℕ) × (n < 2 ^ 63) × (k ≡ pos n) × (h ≡ chain n)

module _ (g : Geth) (chain : ℕ → Header) (laws : CacheLaws g) (world : Chain g chain) where
  pub block_number-chain : (n : ℕ) → n < 2 ^ 63 → block_number (chain n) ≡ pos n
  block_number-chain n low = rw (world.numbered n) (int64-pos n low)

  pub Coherent-get :
      (c : g.Cache) (i : ℤ) → Coherent g chain c → Coherent g chain (g.cache_get c i).1
  Coherent-get c i coherent k h hit = coherent k h (sym (laws.get_keeps c i k) ∙ hit)

  Coherent-add :
      (c : g.Cache) (n : ℕ)
      → n < 2 ^ 63
      → Coherent g chain c
      → Coherent g chain (g.cache_add c (block_number (chain n)) (chain n))
  Coherent-add c n low coherent k h hit =
      elim (laws.add_sound c (block_number (chain n)) k (chain n) h hit) [
        | inl same ↦ (n, low, same.0 ∙ block_number-chain n low, same.1)
        | inr old ↦ coherent k h old
      ]

  -- An answer that the chain gives keeps the cache coherent.
  pub Coherent-store :
      (i : ℤ) (s : Node g) (n : ℕ) (h : Header)
      → n < 2 ^ 63
      → h ≡ chain n
      → Coherent g chain s.header_cache
      → Coherent g chain (g.cache_add (looked_up g i s) (block_number h) h)
  Coherent-store i s n h low same coherent =
      rw same (Coherent-add (looked_up g i s) n low (Coherent-get s.header_cache i coherent))

  -- A lookup that leaves a coherent cache and returns only headers with `P`.
  abbrev pub Sound : (Header → Type 0) → Outcome (Result Header) × Node g → Type 0
  Sound P (o, t) = Coherent g chain t.header_cache × ((h : Header) → o ≡ returned (ok h) → P h)

  Sound-miss :
      (P : Header → Type 0) (i : ℤ) (s : Node g)
      → Coherent g chain s.header_cache
      → (g.cache_get s.header_cache i).0 ≡ none
      → (r : Reply Header) → answer g i s ≡ r
      → ((h : Header) → r ≡ value h → (n : ℕ) × (n < 2 ^ 63) × (h ≡ chain n) × P h)
      → Sound P (header_by_number g i s)
  Sound-miss P i s coherent miss (value h) e given =
      let (n, low, same, holds) = given h refl in
      rw (header_by_number_value g i s miss e)
        (Coherent-store i s n h low same coherent, λ x e'. subst P (cc) holds)
  Sound-miss P i s coherent miss null e given =
      rw (header_by_number_null g i s miss e)
        (Coherent-get s.header_cache i coherent, λ x e'. absurd (cc))
  Sound-miss P i s coherent miss failed e given =
      rw (header_by_number_failed g i s miss e)
        (Coherent-get s.header_cache i coherent, λ x e'. absurd (cc))
  Sound-miss P i s coherent miss (partial h) e given =
      absurd (world.complete s.calls (to_block_num_arg i) h e)

  Sound-lookup :
      (P : Header → Type 0) (i : ℤ) (s : Node g)
      → Coherent g chain s.header_cache
      → ((h : Header) → (g.cache_get s.header_cache i).0 ≡ some h → P h)
      → ((h : Header) → answer g i s ≡ value h → (n : ℕ) × (n < 2 ^ 63) × (h ≡ chain n) × P h)
      → Sound P (header_by_number g i s)
  Sound-lookup P i s coherent cached given = elim (Option-cases (g.cache_get s.header_cache i).0) [
    | inr (h, hit) ↦
        rw (header_by_number_hit g i s hit)
          (Coherent-get s.header_cache i coherent, λ x e. subst P (cc) (cached h hit))
    | inl miss ↦ Sound-miss P i s coherent miss (answer g i s) refl given
  ]

  pub header_by_number-chain :
      (n : ℕ) (s : Node g)
      → n < 2 ^ 63
      → Coherent g chain s.header_cache
      → let (o, t) = header_by_number g (pos n) s in
        Coherent g chain t.header_cache × ((h : Header) → o ≡ returned (ok h) → h ≡ chain n)
  header_by_number-chain n s low coherent =
      Sound-lookup (λ h. h ≡ chain n) (pos n) s coherent
        (λ h hit. let (m, low', key, same) = coherent (pos n) h hit in cc)
        (λ h e. let same = world.by_number s.calls n h low e in (n, low, same, same))

  newest_uncached :
      (s : Node g) (h : Header)
      → Coherent g chain s.header_cache
      → (g.cache_get s.header_cache (negsuc 0)).0 ≢ some h
  newest_uncached s h coherent hit = let (m, low, key, same) = coherent (negsuc 0) h hit in cc

  pub newest_miss :
      (s : Node g)
      → Coherent g chain s.header_cache
      → (g.cache_get s.header_cache (negsuc 0)).0 ≡ none
  newest_miss s coherent =
      no_entry (g.cache_get s.header_cache (negsuc 0)).0 (λ h hit. newest_uncached s h coherent hit)

  by_result :
      (P : Header → Type 0) (o : Outcome (Result Header)) (t : Node g)
      → Sound P (o, t)
      → Ends
          (λ h u. P h × Coherent g chain u.header_cache)
          (λ u. Coherent g chain u.header_cache)
          (o, t)
  by_result P (returned (ok h)) t (kept, found) = (found h refl, kept)
  by_result P (returned (err e)) t (kept, found) = kept
  by_result P exited t (kept, found) = kept
  by_result P panicked t (kept, found) = kept
  by_result P blocked t (kept, found) = kept

  -- From a coherent cache, HeaderByNumber of a block number leaves a coherent cache on every end,
  -- and a header that it returns is the chain's block of that number, cached or fetched.
  pub header_by_number-of_chain :
      (n : ℕ) (s : Node g)
      → n < 2 ^ 63
      → Coherent g chain s.header_cache
      → Ends
          (λ h t. (h ≡ chain n) × Coherent g chain t.header_cache)
          (λ t. Coherent g chain t.header_cache)
          (header_by_number g (pos n) s)
  header_by_number-of_chain n s low coherent =
      by_result (λ h. h ≡ chain n) (header_by_number g (pos n) s).0 (header_by_number g (pos n) s).1
        (header_by_number-chain n s low coherent)

  pub newest-Sound :
      (s : Node g)
      → Coherent g chain s.header_cache
      → Sound (λ h. (n : ℕ) × (n < 2 ^ 63) × (h ≡ chain n)) (header_by_number g (negsuc 0) s)
  newest-Sound s coherent =
      Sound-lookup (λ h. (n : ℕ) × (n < 2 ^ 63) × (h ≡ chain n)) (negsuc 0) s coherent
        (λ h hit. absurd (newest_uncached s h coherent hit))
        (λ h e. let (n, low, same) = world.newest s.calls h e in (n, low, same, (n, low, same)))

  -- The newest block is asked of the node every time: from a coherent cache the call is always
  -- made, the cache stays coherent on every end, and a header that is returned is a block of the
  -- chain.
  pub header_by_number-newest :
      (s : Node g)
      → Coherent g chain s.header_cache
      → let r = header_by_number g (negsuc 0) s in
        (r.1.calls ≡ s.calls + 1)
        × Ends
            (λ h t. ((n : ℕ) × (n < 2 ^ 63) × (h ≡ chain n)) × Coherent g chain t.header_cache)
            (λ t. Coherent g chain t.header_cache)
            r
  header_by_number-newest s coherent =
      let r = header_by_number g (negsuc 0) s in
      (
        calls_miss g (negsuc 0) s (newest_miss s coherent),
        by_result (λ h. (n : ℕ) × (n < 2 ^ 63) × (h ≡ chain n)) r.0 r.1 (newest-Sound s coherent),
      )
