-- ===== src/Redt/Monitor/Steady.antt =====
-- A connection on which every block of the chain is served and every validator is known: what
-- `redt/redt.go` needs to run without leaving its loops.
use signers.Base.{
  ℕ, ◌+◌, ◌^◌, ◌≤◌, ◌<◌, ◌≡◌, refl, ap, ◌∙◌, List, none, some, arith, length, All, Option-cases,
  inl, inr,
}
use signers.Base.Int.{ℤ, pos, negsuc}
use signers.Base.Exec.{ok, returned}
use signers.Redt.Types.{Address, Header, block_number, value, Geth}
use signers.Redt.Node.{Node, to_block_num_arg, header_by_number}
use signers.Redt.Node.Cache.{CacheLaws, header_by_number_hit, header_by_number_value}
use signers.Redt.Node.Chain.{Chain, Coherent, Coherent-get, Coherent-store, newest_miss}
use signers.Redt.Report.Display.{Known}
use signers.Redt.Stats.{signers_from_block}
use signers.Redt.Stats.Counting.{IsFree}

-- The author and the signers of each block, and the newest block at each call.
pub record Story : Type 0 where
  pub chain : ℕ → Header
  pub author : ℕ → Address
  pub signers : ℕ → List Address
  pub newest : ℕ → ℕ

-- The node serves the story: each block by its number, a newest block that never goes back, and
-- seals that are recovered to the author and the signers, for every block but the genesis block,
-- which has no seal.
pub record Steady (g : Geth) (story : Story) : Type 0 where
  pub laws : CacheLaws g
  pub world : Chain g story.chain
  pub served :
      (c n : ℕ) → n < 2 ^ 63 → g.get_block c (to_block_num_arg (pos n)) ≡ value (story.chain n)
  pub top :
      (c : ℕ) → g.get_block c (to_block_num_arg (negsuc 0)) ≡ value (story.chain (story.newest c))
  pub grows : (c d : ℕ) → c ≤ d → story.newest c ≤ story.newest d
  pub low : (c : ℕ) → story.newest c + 1 < 2 ^ 63
  pub recovered :
      (n : ℕ)
      → 0 < n
      → signers_from_block g (story.chain n) ≡ returned (story.author n, story.signers n)

-- A node between two blocks.
pub record Ready (g : Geth) (story : Story) (s : Node g) : Type 0 where
  pub free : IsFree s
  pub coherent : Coherent g story.chain s.header_cache
  pub inhabited : 0 < length s.val_set
  pub members_known : All (Known s) s.val_set
  pub authors_known : (n : ℕ) → Known s (story.author n)
  pub counting : s.last_block_processed ≡ pos 0

module _ (g : Geth) (story : Story) (steady : Steady g story) where
  open story use {chain}

  -- A lookup that finds the block `n` of the chain.
  pub record Found (n : ℕ) (i : ℤ) (s : Node g) : Type 0 where
    pub cache : g.Cache
    pub calls : ℕ
    pub lookup :
        header_by_number g i s
        ≡ (returned (ok (chain n)), record s { header_cache = cache; calls = calls })
    pub coherent : Coherent g chain cache
    pub later : s.calls ≤ calls

  fetched :
      (n : ℕ) (i : ℤ) (s : Node g)
      → n < 2 ^ 63
      → Coherent g chain s.header_cache
      → (g.cache_get s.header_cache i).0 ≡ none
      → g.get_block s.calls (to_block_num_arg i) ≡ value (chain n)
      → Found n i s
  fetched n i s low coherent miss e = record {
    cache = g.cache_add (g.cache_get s.header_cache i).1 (block_number (chain n)) (chain n);
    calls = s.calls + 1;
    lookup = header_by_number_value g i s miss e;
    coherent = Coherent-store g chain steady.laws steady.world i s n (chain n) low refl coherent;
    later = omega arith;
  }

  pub Found-block :
      (n : ℕ) (s : Node g) → n < 2 ^ 63 → Coherent g chain s.header_cache → Found n (pos n) s
  Found-block n s low coherent = elim (Option-cases (g.cache_get s.header_cache (pos n)).0) [
    | inl miss ↦ fetched n (pos n) s low coherent miss (steady.served s.calls n low)
    | inr (h, hit) ↦
        let (m, low', key, same) = coherent (pos n) h hit in
        let is_n : h ≡ chain n = cc in
        record {
          cache = (g.cache_get s.header_cache (pos n)).1;
          calls = s.calls;
          lookup = header_by_number_hit g (pos n) s (hit ∙ ap some is_n);
          coherent = Coherent-get g chain steady.laws steady.world s.header_cache (pos n) coherent;
          later = omega arith;
        }
  ]

  pub Found-newest :
      (s : Node g) → Coherent g chain s.header_cache → Found (story.newest s.calls) (negsuc 0) s
  Found-newest s coherent =
      fetched (story.newest s.calls) (negsuc 0) s (omega (arith, steady.low s.calls)) coherent
        (newest_miss g chain steady.laws steady.world s coherent) (steady.top s.calls)
