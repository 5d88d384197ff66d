-- ===== src/History/Tests.antt =====
-- Runs of the model of history/history.go on a small chain and a database in memory.
use signers.Base.{ℕ, ◌*◌, ◌<◌, ◌+◌, ◌≡◌, refl, ap, true, false, [], ◌∷◌, ◌++◌, none, some, arith}
use signers.Base.Int.{pos, int64-pos}
use signers.Base.Ends.{Ends}
use signers.Base.Exec.{
  Result, ok, err, not_initialised, Outcome, returned, exited, panicked, blocked,
}
use signers.Redt.Types.{SignerData}
use signers.Redt.Node.{Node, current_block_number}
use signers.Redt.Create.{zero_all, sorted_val_set, get_val_set, new_redt_node}
use signers.Redt.Create.Fresh.{StartsEmpty}
use signers.Base.Sort.{text_le, sort_strings}
use signers.Redt.Demo.{
  demo_geth, demo_node, demo_cache, demo-Chain, demo_story, demo_steady, block, reply_for,
}
use signers.History.Store.{open_blockchain, insert_header}
use signers.History.Store.Rows.{Inserted, insert_header-Inserted}
use signers.History.Download.Completes.{NoGenesisSeal}
use signers.Redt.Stats.{signers_from_block}
use signers.History.Demo.{
  largest_bounds, smallest_bounds, Memory, memory, memory_laws, row, holding,
}
use signers.History.Download.{State, history_forward, history_backwards}
use signers.History.Download.Blocks.{Reliable, Saved, Partial, numbers, taken}
use signers.History.Download.Downwards.{below}
use signers.History.Download.Whole.{Opens}
use signers.History.Download.Forward.{history_forward-no_gap, history_forward-completes}
use signers.History.Download.Backward.{history_backwards-no_gap, history_backwards-exits}
use signers.History.Download.Steps.{Willing}
use signers.History.Download.Empty.{Nothing, download_of_empty}
use signers.History.Cached.{Blockchain, open_history, signer_data_for_block_number_cached}
use signers.History.Cached.Misses.{cached_after_open}

abbrev reliable : Reliable demo_geth memory block
reliable = record {
  cache = demo_cache;
  world = demo-Chain;
  engine = memory_laws;
  commits = λ d. refl;
}

abbrev session : State demo_geth memory
session = record { node = demo_node; db = holding (row 1 ∷ []) }

abbrev node_or : Node demo_geth → Outcome (Result (Node demo_geth)) → Node demo_geth
node_or other (returned (ok n)) = n
node_or other (returned (err e)) = other
node_or other exited = other
node_or other panicked = other
node_or other blocked = other

abbrev new_node : Node demo_geth
new_node = record demo_node {
  val_set = 0 ∷ 1 ∷ 9 ∷ [];
  all_validators = (node_or demo_node (new_redt_node demo_geth true)).all_validators;
  as_proposer = (node_or demo_node (new_redt_node demo_geth true)).as_proposer;
  as_signer = (node_or demo_node (new_redt_node demo_geth true)).as_signer;
  calls = 1;
}

made : new_redt_node demo_geth true ≡ returned (ok new_node)
unfolding new_redt_node get_val_set sort_strings sorted_val_set zero_all text_le
made = refl

starts_empty : StartsEmpty demo_geth
starts_empty i = refl

opens_and_creates : Opens memory
opens_and_creates = record { opens = λ name d. refl; creates = λ table d. refl }

abbrev db_opened : Memory
db_opened = (open_blockchain memory [] session.db).1

largest_is_one : memory.select_max db_opened ≡ ok (some (pos 1))
unfolding open_blockchain
largest_is_one = refl

smallest_is_one : memory.select_min db_opened ≡ ok (some (pos 1))
unfolding open_blockchain
smallest_is_one = refl

current_is_three : (current_block_number demo_geth new_node).0 ≡ returned (ok (pos 3))
unfolding current_block_number reply_for
current_is_three = ap (λ z. returned (ok z)) (int64-pos 3 (omega arith))

history_forward-no_gap_example :
    Ends
      (λ _ t. Saved demo_geth memory block reliable (1 ∷ []) (◌+◌ 2) 2 t)
      (Partial demo_geth memory block reliable (1 ∷ []) (◌+◌ 2) 2)
      (history_forward demo_geth memory true false [] session)
history_forward-no_gap_example =
    history_forward-no_gap demo_geth memory block reliable starts_empty session [] new_node 1 3
      (omega arith) (omega arith) (omega arith) made largest_is_one current_is_three

history_backwards-no_gap_example :
    Ends
      (λ _ t. Saved demo_geth memory block reliable (1 ∷ []) (below 0) 1 t)
      (Partial demo_geth memory block reliable (1 ∷ []) (below 0) 1)
      (history_backwards demo_geth memory true false [] session)
history_backwards-no_gap_example =
    history_backwards-no_gap demo_geth memory block reliable starts_empty session [] new_node 1 1
      (omega arith) (omega arith) (omega arith) made largest_is_one smallest_is_one

abbrev empty_session : State demo_geth memory
empty_session = record session { db = holding [] }

download_of_empty_example :
    Nothing demo_geth memory memory_laws empty_session
      (history_forward demo_geth memory true false [] empty_session)
    × Nothing demo_geth memory memory_laws empty_session
        (history_backwards demo_geth memory true false [] empty_session)
download_of_empty_example =
    download_of_empty demo_geth memory memory_laws true [] empty_session refl

abbrev data_of_three : SignerData
data_of_three = record { proposer = 1 ∷ []; signers = (0 ∷ []) ∷ (1 ∷ []) ∷ [] }

insert_header-Inserted_example :
    Ends
      (Inserted memory memory_laws (block 3) data_of_three 0 (holding []))
      (λ t. t.committed ≡ (holding []).committed)
      (insert_header memory (block 3) data_of_three 0 (holding []))
insert_header-Inserted_example =
    insert_header-Inserted memory memory_laws (block 3) data_of_three 0 (holding [])

abbrev opened : Blockchain demo_geth.Cache Memory
opened = record { rt = none; db = some (holding []) }

opens : open_history demo_geth memory [] (holding []) ≡ returned (ok opened)
unfolding open_history
opens = refl

cached_after_open_example :
    signer_data_for_block_number_cached demo_geth memory (pos 3) opened
    ≡ (returned (err not_initialised), opened)
cached_after_open_example = cached_after_open demo_geth memory [] (holding []) opened opens (pos 3)

willing : Willing memory memory_laws
willing = record {
  begins = λ d. refl;
  prepares = λ table d. refl;
  inserts_block = λ row d unused. refl;
  inserts_signer = λ row d. refl;
  commits = λ d. refl;
  max_bounds = λ d m e. largest_bounds d.committed.blocks m e;
  min_bounds = λ d l e. smallest_bounds d.committed.blocks l e;
}

history_forward-completes_example :
    (t : State demo_geth memory) × (history_forward demo_geth memory true false [] session
      ≡ (returned (ok none), t))
    × (numbers t.db.committed ≡ (1 ∷ []) ++ taken (◌+◌ 2) 2)
history_forward-completes_example =
    history_forward-completes demo_geth memory demo_story demo_steady memory_laws willing
      starts_empty opens_and_creates session [] new_node 1 (omega arith) (omega arith) made
      largest_is_one

-- A database that holds block 3.
abbrev from_three : State demo_geth memory
from_three = record { node = demo_node; db = holding (row 3 ∷ []) }

abbrev three_opened : Memory
three_opened = (open_blockchain memory [] from_three.db).1

largest_is_three : memory.select_max three_opened ≡ ok (some (pos 3))
unfolding open_blockchain
largest_is_three = refl

smallest_is_three : memory.select_min three_opened ≡ ok (some (pos 3))
unfolding open_blockchain
smallest_is_three = refl

genesis_unsealed : NoGenesisSeal demo_geth memory demo_story demo_steady memory_laws willing
unfolding signers_from_block
genesis_unsealed = refl

history_backwards-exits_example :
    (t : State demo_geth memory) × (hundreds : ℕ) × (lost : ℕ) × (history_backwards demo_geth memory
        true false [] from_three
      ≡ (exited, t))
    × (numbers t.db.committed ≡ (3 ∷ []) ++ taken (below 2) (100 * hundreds))
    × (100 * hundreds + lost ≡ 2)
    × (lost < 100)
history_backwards-exits_example =
    history_backwards-exits demo_geth memory demo_story demo_steady memory_laws willing starts_empty
      opens_and_creates from_three [] new_node 3 3 (omega arith) (omega arith) (omega arith)
      genesis_unsealed made largest_is_three smallest_is_three
