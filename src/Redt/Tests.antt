-- ===== src/Redt/Tests.antt =====
-- Runs of the model of redt/redt.go on a small chain.
use signers.Base.{
  suc, ℕ, ◌+◌, ◌-◌, ◌%◌, ◌≤◌, ◌≡◌, inr, refl, List, [], ◌∷◌, map, some, arith, length, get_elem?,
  contains, if◌then◌else◌,
}
use mathlib.Core.List.{Perm}
use signers.Base.Int.{pos, ◌<ℤ◌, int64-pos}
use signers.Base.Sort.{IsSorted}
use signers.Base.Ends.{Ends}
use signers.Base.Exec.{Error, err, ok, returned, panicked, blocked}
use signers.Redt.Types.{Address, block_number, partial, Geth}
use signers.Redt.Node.{Node, to_block_num_arg, header_by_number}
use signers.Redt.Node.Cache.{header_by_number_again, header_by_number_poisoned}
use signers.Redt.Node.Chain.{Coherent, header_by_number-of_chain}
use signers.Redt.Node.Numbers.{read_block_num, to_block_num_arg-read}
use signers.Redt.Create.{get_val_set}
use signers.Redt.Create.Order.{get_val_set-order}
use signers.Redt.Stats.{signers_from_block, update_statistics_for_block, initialize_stats}
use signers.Redt.Stats.Counting.{Counts, Keeps, update-Counts}
use signers.Redt.Stats.Deadlock.{initialize_stats-blocked, initialize_stats-resets}
use signers.Redt.Report.{Report, next_proposer, signers_for_header}
use signers.Redt.Report.RoundRobin.{next_proposer-round_robin}
use signers.Redt.Report.Answer.{Answer, signers_for_header-Answer}
use signers.Redt.Report.Panics.{signers_for_header-panics}
use signers.Redt.Monitor.Start.{monitor_signers-start}
use signers.Redt.Monitor.Notified.{noted, Displayed, monitor_signers_ws-Displayed}
use signers.Redt.Stats.Deadlock.{zeroed}
use signers.Redt.Monitor.{monitor_signers, monitor_signers_ws, poll_loop}
use signers.Redt.Monitor.Steady.{Ready}
use signers.Redt.Monitor.Advance.{Advanced}
use signers.Redt.Monitor.Coverage.{at, poll_loop_coverage}
use signers.Redt.Demo.{
  demo_geth, demo_node, demo_story, demo_steady, demo-Ready, demo-Coherent, demo_cache, demo-Chain,
  block, newest_at,
}

-- A node whose answers break off after the number of the block.
abbrev breaking_geth : Geth
breaking_geth = record demo_geth { get_block = λ c t. partial (block 3) }

recovered_three : signers_from_block demo_geth (block 3) ≡ returned (1, 0 ∷ 1 ∷ [])
unfolding signers_from_block
recovered_three = refl

number_three : block_number (block 3) ≡ pos 3
number_three = int64-pos 3 (omega arith)

fresh_three : demo_node.last_block_processed <ℤ block_number (block 3)
fresh_three = rw number_three (omega arith)

poll_loop_coverage_example :
    (m timestamp : ℕ) × (t : Node demo_geth) × (2 ≤ m)
    × (m ≤ newest_at t.calls)
    × (poll_loop demo_geth 2 (at demo_geth demo_story demo_steady 1 101) demo_node
        ≡ (returned (at demo_geth demo_story demo_steady m timestamp), t))
    × Ready demo_geth demo_story t
    × Advanced demo_geth demo_story (m - 1) 2 demo_node t
poll_loop_coverage_example =
    poll_loop_coverage demo_geth demo_story demo_steady 1 1 101 demo_node (omega arith) demo-Ready

update-Counts_example :
    let (o, t) = update_statistics_for_block demo_geth (block 3) demo_node in
    (o ≡ returned (1, 0 ∷ 1 ∷ [])) × Counts 1 (0 ∷ 1 ∷ []) demo_node t × Keeps demo_node t
update-Counts_example =
    update-Counts demo_geth (block 3) demo_node recovered_three (refl, refl) fresh_three

header_by_number_poisoned_example :
    let (o, t) = header_by_number breaking_geth (pos 3) demo_node in
    let (o', u) = header_by_number breaking_geth (pos 3) t in
    (o ≡ returned (err Error.failed)) × (o' ≡ returned (ok (block 3))) × (u.calls ≡ 0 + 1)
header_by_number_poisoned_example =
    header_by_number_poisoned breaking_geth
      (record {
        get_keeps = λ c i j. refl;
        add_found = demo_cache.add_found;
        add_sound = demo_cache.add_sound;
      })
      (pos 3) demo_node (block 3) refl refl number_three

header_by_number_again_example :
    let t = (header_by_number demo_geth (pos 3) demo_node).1 in
    let (o, u) = header_by_number demo_geth (pos 3) t in
    (o ≡ returned (ok (block 3))) × (t.calls ≡ 0 + 1) × (u.calls ≡ 0 + 1)
header_by_number_again_example =
    header_by_number_again demo_geth demo_cache (pos 3) demo_node (block 3) refl
      (demo_steady.served 0 3 (omega arith)) number_three

header_by_number-of_chain_example :
    Ends
      (λ h t. (h ≡ block 3) × Coherent demo_geth block t.header_cache)
      (λ t. Coherent demo_geth block t.header_cache)
      (header_by_number demo_geth (pos 3) demo_node)
header_by_number-of_chain_example =
    header_by_number-of_chain demo_geth block demo_cache demo-Chain 3 demo_node (omega arith)
      demo-Coherent

to_block_num_arg-read_example : read_block_num (to_block_num_arg (pos 4660)) ≡ 4660
to_block_num_arg-read_example = to_block_num_arg-read 4660 (omega arith)

abbrev three : List Address
three = 5 ∷ 7 ∷ 9 ∷ []

next_proposer-round_robin_example :
    (b : Address) × (get_elem? three ((2 + 1) % length three) ≡ some b)
    × (next_proposer 9 three ≡ returned b)
unfolding contains
next_proposer-round_robin_example =
    next_proposer-round_robin three (refl, (refl, (refl, tt))) 2 9 refl

get_val_set-order_example :
    (addrs : List Address) × ((get_val_set demo_geth demo_node).0 ≡ returned (ok addrs))
    × IsSorted (map demo_geth.address_hex addrs)
    × Perm addrs (map demo_geth.hex_to_address ((9 ∷ []) ∷ (1 ∷ []) ∷ (0 ∷ []) ∷ []))
get_val_set-order_example =
    get_val_set-order demo_geth (λ a. refl) demo_node ((9 ∷ []) ∷ (1 ∷ []) ∷ (0 ∷ []) ∷ []) refl

initialize_stats-blocked_example : (initialize_stats demo_geth (pos 1) demo_node).0 ≡ blocked
initialize_stats-blocked_example =
    initialize_stats-blocked demo_geth demo_story demo_steady 1 demo_node (omega arith)
      (omega arith) (λ e. absurd (omega (arith, e))) demo-Coherent (refl, refl)

abbrev counted_node : Node demo_geth
counted_node = record demo_node { as_signer = λ a. 4 }

initialize_stats-resets_example :
    let (o, t) = initialize_stats demo_geth (pos 0) counted_node in
    (o ≡ returned tt)
    × ((v : Address) → t.as_proposer v ≡ (if contains v (0 ∷ 1 ∷ []) then 0 else 0))
    × ((v : Address) → t.as_signer v ≡ (if contains v (0 ∷ 1 ∷ []) then 0 else 4))
    × Keeps counted_node t
initialize_stats-resets_example =
    initialize_stats-resets demo_geth (pos 0) counted_node (omega arith) (refl, refl)

abbrev third_node : Node demo_geth
third_node = record demo_node { val_set = 0 ∷ 1 ∷ 5 ∷ [] }

signers_for_header-panics_example :
    (signers_for_header demo_geth (block 3) 102 third_node).0 ≡ panicked
unfolding contains
signers_for_header-panics_example =
    signers_for_header-panics demo_geth (block 3) 102 third_node recovered_three (refl, refl)
      (inr (5, refl, refl))

monitor_signers-start_example :
    (m timestamp : ℕ) × (t : Node demo_geth) × (2 ≤ m)
    × (monitor_signers demo_geth (pos 0) 3 demo_node
        ≡ (returned (at demo_geth demo_story demo_steady m timestamp), t))
    × Ready demo_geth demo_story t
    × Advanced demo_geth demo_story (suc (m - 2)) 2 (zeroed demo_node) t
monitor_signers-start_example =
    monitor_signers-start demo_geth demo_story demo_steady 2 (pos 0) demo_node (omega arith)
      (omega arith) demo-Ready

monitor_signers_ws-Displayed_example :
    (timestamp : ℕ) × (t : Node demo_geth) × (monitor_signers_ws demo_geth
        (2 ∷ 3 ∷ 4 ∷ [])
        demo_node
      ≡ (returned (noted demo_geth demo_story demo_steady timestamp), t))
    × Ready demo_geth demo_story t
    × Displayed demo_geth demo_story (3 ∷ 4 ∷ []) demo_node t
monitor_signers_ws-Displayed_example =
    monitor_signers_ws-Displayed demo_geth demo_story demo_steady 2 (3 ∷ 4 ∷ []) demo_node
      (omega arith, omega arith) ((omega arith, omega arith), ((omega arith, omega arith), tt))
      demo-Ready

signers_for_header-Answer_example :
    (r : Report) × (t : Node demo_geth) × (signers_for_header demo_geth (block 3) 102 demo_node
      ≡ (returned (r, 103), t))
    × Answer demo_geth (block 3) 102 demo_node 1 demo-Ready.members_known r
    × Counts 1 (0 ∷ 1 ∷ []) demo_node t
    × Keeps demo_node t
signers_for_header-Answer_example =
    signers_for_header-Answer demo_geth (block 3) 102 demo_node recovered_three (refl, refl)
      fresh_three (omega arith) demo-Ready.members_known (demo-Ready.authors_known 3)
