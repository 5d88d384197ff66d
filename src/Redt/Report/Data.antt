-- ===== src/Redt/Report/Data.antt =====
-- SignerDataForBlockNumber (redt/redt.go) over the chain behind the node.
use signers.Base.{ℕ, ◌^◌, ◌<◌, ◌≡◌, refl, sym, ap, List, map}
use signers.Base.Int.{pos}
use signers.Base.Exec.{Result, ok, err, Outcome, returned, exited, panicked, blocked, continue}
use signers.Base.Ends.{Ends, Ends-weaken}
use signers.Redt.Types.{Address, Header, SignerData, Geth}
use signers.Redt.Node.{Node, header_by_number}
use signers.Redt.Node.Cache.{CacheLaws}
use signers.Redt.Node.Chain.{Chain, Coherent, header_by_number-chain}
use signers.Redt.Monitor.Steady.{Story, Steady, Found-block}
use signers.Redt.Stats.{signers_from_block}
use signers.Redt.Report.{signer_data, data_of_header, signer_data_for_block_number}

module _ (g : Geth) (chain : ℕ → Header) where
  -- The header is the chain's, and the cache stays coherent.
  abbrev pub OfChain : ℕ → Header × SignerData → Node g → Type 0
  OfChain n p t = (p.0 ≡ chain n) × Coherent g chain t.header_cache

  abbrev pub StillCoherent : Node g → Type 0
  StillCoherent t = Coherent g chain t.header_cache

  -- The block n with the addresses that its seals recover to, as checksummed texts.
  abbrev pub Told : ℕ → Header × SignerData → Node g → Type 0
  Told n p t =
      (p.0 ≡ chain n)
      × ((author : Address) × (signers : List Address) × (signers_from_block g (chain n)
            ≡ returned (author, signers))
          × (p.1.proposer ≡ g.address_hex author)
          × (p.1.signers ≡ map g.address_hex signers))
      × StillCoherent t

  recovered-Ends :
      (n : ℕ) (h : Header) (t : Node g) (o : Outcome (Address × List Address))
      → h ≡ chain n
      → signers_from_block g (chain n) ≡ o
      → StillCoherent t
      → Ends
          (Told n)
          StillCoherent
          (continue o (λ found u. (returned (ok (h, signer_data g found)), u)) t)
  unfolding signer_data
  recovered-Ends n h t (returned (author, signers)) same found coherent =
      (same, (author, signers, found, refl, refl), coherent)
  recovered-Ends n h t exited same found coherent = coherent
  recovered-Ends n h t panicked same found coherent = coherent
  recovered-Ends n h t blocked same found coherent = coherent

  looked_up-Ends :
      (n : ℕ) (o : Outcome (Result Header)) (t : Node g)
      → StillCoherent t
      → ((h : Header) → o ≡ returned (ok h) → h ≡ chain n)
      → Ends (Told n) StillCoherent (continue o (data_of_header g) t)
  unfolding data_of_header
  looked_up-Ends n (returned (ok h)) t coherent same =
      recovered-Ends n h t (signers_from_block g h) (same h refl)
        (ap (signers_from_block g) (sym (same h refl))) coherent
  looked_up-Ends n (returned (err e)) t coherent same = coherent
  looked_up-Ends n exited t coherent same = coherent
  looked_up-Ends n panicked t coherent same = coherent
  looked_up-Ends n blocked t coherent same = coherent

  pub signer_data-Told :
      (laws : CacheLaws g) (world : Chain g chain) (n : ℕ) (s : Node g)
      → n < 2 ^ 63
      → StillCoherent s
      → Ends (Told n) StillCoherent (signer_data_for_block_number g (pos n) s)
  unfolding signer_data_for_block_number
  signer_data-Told laws world n s low coherent =
      let (kept, same) = header_by_number-chain g chain laws world n s low coherent in
      looked_up-Ends n (header_by_number g (pos n) s).0 (header_by_number g (pos n) s).1 kept same

  pub signer_data-Ends :
      (laws : CacheLaws g) (world : Chain g chain) (n : ℕ) (s : Node g)
      → n < 2 ^ 63
      → StillCoherent s
      → Ends (OfChain n) StillCoherent (signer_data_for_block_number g (pos n) s)
  signer_data-Ends laws world n s low coherent =
      Ends-weaken (Told n) (OfChain n) StillCoherent StillCoherent
        (signer_data_for_block_number g (pos n) s) (signer_data-Told laws world n s low coherent)
        (λ p t h. (h.0, h.2)) (λ t h. h)

-- On a node that serves its chain, SignerDataForBlockNumber returns the block and its signers.
pub signer_data_of_block :
    (g : Geth) (story : Story) (steady : Steady g story) (n : ℕ) (s : Node g) (some_block : 0 < n)
    (low : n < 2 ^ 63) (coherent : Coherent g story.chain s.header_cache)
    → let found = Found-block g story steady n s low coherent in
      signer_data_for_block_number g (pos n) s ≡ (
        returned (ok (story.chain n, signer_data g (story.author n, story.signers n))),
        record s { header_cache = found.cache; calls = found.calls },
      )
unfolding signer_data_for_block_number data_of_header
signer_data_of_block g story steady n s some_block low coherent =
    rw (Found-block g story steady n s low coherent).lookup
      (rw (steady.recovered n some_block) refl)

-- On a block whose seals are not recovered, SignerDataForBlockNumber ends the process.
pub signer_data_exits :
    (g : Geth) (story : Story) (steady : Steady g story) (n : ℕ) (s : Node g) (low : n < 2 ^ 63)
    (coherent : Coherent g story.chain s.header_cache)
    → signers_from_block g (story.chain n) ≡ exited
    → let found = Found-block g story steady n s low coherent in
      signer_data_for_block_number g (pos n) s
      ≡ (exited, record s { header_cache = found.cache; calls = found.calls })
unfolding signer_data_for_block_number data_of_header
signer_data_exits g story steady n s low coherent unsealed =
    rw (Found-block g story steady n s low coherent).lookup (rw unsealed refl)
