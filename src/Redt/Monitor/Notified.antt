-- ===== src/Redt/Monitor/Notified.antt =====
-- MonitorSignersWS (redt/redt.go) over the notifications that arrive.
use signers.Base.{
  ℕ, ◌+◌, ◌%◌, ◌^◌, ◌<◌, ◌≡◌, refl, sym, ap, ◌∙◌, List, [], ◌∷◌, ◌++◌, map, append_assoc,
  append-nil, arith, count, All, false,
}
use signers.Base.Int.{pos, int64-pos}
use signers.Base.Exec.{returned}
use signers.Redt.Types.{Address, Geth}
use signers.Redt.Node.{Node}
use signers.Redt.Monitor.{Watch, watch_all, monitor_signers_ws}
use signers.Redt.Monitor.Steady.{Story, Steady, Ready, Found-block}
use signers.Redt.Monitor.Advance.{Advanced}
use signers.Redt.Monitor.Coverage.{display_one}

-- How often an address stands in the lists of these blocks.
abbrev pub tally : (ℕ → List Address) → Address → List ℕ → ℕ
tally f v [] = 0
tally f v (n ∷ ns) = count v (f n) + tally f v ns

-- A block number that is not the genesis block's.
abbrev pub InRange : ℕ → Type 0
InRange n = (0 < n) × (n < 2 ^ 63)

module _ (g : Geth) (story : Story) where
  open story use {author, signers}

  -- From `s` to `t` these blocks were displayed, in this order, and counted.
  pub record Displayed (ns : List ℕ) (s t : Node g) : Type 0 where
    pub shown : map (λ e. e.number) t.screen ≡ map (λ e. e.number) s.screen ++ map pos ns
    pub proposals :
        (v : Address)
        → t.as_proposer v % 2 ^ 64 ≡ (s.as_proposer v + tally (λ i. author i ∷ []) v ns) % 2 ^ 64
    pub signatures :
        (v : Address) → t.as_signer v % 2 ^ 64 ≡ (s.as_signer v + tally signers v ns) % 2 ^ 64

  Displayed-none : (s : Node g) → Displayed [] s s
  Displayed-none s = record {
    shown = sym (append-nil _);
    proposals = λ v. omega arith;
    signatures = λ v. omega arith;
  }

  Displayed-next :
      (n : ℕ) (ns : List ℕ) (s t u : Node g)
      → Advanced g story 1 n s t
      → Displayed ns t u
      → Displayed (n ∷ ns) s u
  Displayed-next n ns s t u one rest = record {
    shown =
        rest.shown
        ∙ ap (λ l. l ++ map pos ns) one.shown
        ∙ append_assoc (map (λ e. e.number) s.screen) (pos n ∷ []) (map pos ns);
    proposals = λ v. omega (arith, one.proposals v, rest.proposals v);
    signatures = λ v. omega (arith, one.signatures v, rest.signatures v);
  }

  Displayed-from :
      (ns : List ℕ) (s t : Node g) (cache : g.Cache) (calls : ℕ)
      → Displayed ns (record s { header_cache = cache; calls = calls }) t
      → Displayed ns s t
  Displayed-from ns s t cache calls d = record {
    shown = d.shown;
    proposals = d.proposals;
    signatures = d.signatures;
  }

module _ (g : Geth) (story : Story) (steady : Steady g story) where
  open story use {chain}

  abbrev pub noted : ℕ → Watch
  noted timestamp = record { is_first = false; timestamp = timestamp }

  watch_all-Displayed :
      (ns : List ℕ) (latest : ℕ) (s : Node g)
      → All InRange ns
      → Ready g story s
      → (timestamp : ℕ) × (t : Node g) × (watch_all g ns (noted latest) s
          ≡ (returned (noted timestamp), t))
        × Ready g story t
        × Displayed g story ns s t
  unfolding watch_all
  watch_all-Displayed [] latest s in_range ready =
      (latest, s, refl, ready, Displayed-none g story s)
  watch_all-Displayed (n ∷ ns) latest s ((some_block, low), others) ready =
      let (t, shows, ready', one, later) =
        display_one g story steady n latest s some_block low ready in
      let (timestamp, u, runs, ready'', rest) =
        watch_all-Displayed ns (chain n).time t others ready' in
      (
        timestamp,
        u,
        rw (int64-pos n low) (rw shows runs),
        ready'',
        Displayed-next g story n ns s t u one rest,
      )

  -- MonitorSignersWS on a ready node, for notifications of a first block and then of the blocks
  -- `ns`, none of them the genesis block, handles each of them. It displays exactly the blocks
  -- `ns`, in the order of the notifications, and the counters grow, modulo 2^64, by the proposals
  -- and signatures of each of them, as often as it was notified. The first block is not displayed.
  pub monitor_signers_ws-Displayed :
      (first : ℕ) (ns : List ℕ) (s : Node g)
      → InRange first
      → All InRange ns
      → Ready g story s
      → (timestamp : ℕ) × (t : Node g) × (monitor_signers_ws g (first ∷ ns) s
          ≡ (returned (noted timestamp), t))
        × Ready g story t
        × Displayed g story ns s t
  unfolding monitor_signers_ws
  monitor_signers_ws-Displayed first ns s (some_block, low) in_range ready =
      let found = Found-block g story steady first s low ready.coherent in
      let s1 : Node g = record s { header_cache = found.cache; calls = found.calls } in
      let ready1 : Ready g story s1 = record {
        free = ready.free;
        coherent = found.coherent;
        inhabited = ready.inhabited;
        members_known = ready.members_known;
        authors_known = ready.authors_known;
        counting = ready.counting;
      } in
      let (timestamp, t, runs, ready', shown) =
        watch_all-Displayed ns (chain first).time s1 in_range ready1 in
      (
        timestamp,
        t,
        rw (int64-pos first low) (rw found.lookup runs),
        ready',
        Displayed-from g story ns s t found.cache found.calls shown,
      )
