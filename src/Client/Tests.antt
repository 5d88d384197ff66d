-- ===== src/Client/Tests.antt =====
-- Runs of the model of client/ws.go and client/quorum.go.
use signers.Base.{
  length, count, ◌≤◌, Option, some, ℕ, ◌≡◌, refl, true, false, List, [], ◌∷◌, ◌++◌, map, none,
  arith,
}
use signers.Base.Text.{Text, codes, decimal, print, text_eq}
use signers.Base.Exec.{ok}
use signers.Client.Socket.{
  Message, Socket, encoded, find, send_rpc_msg, Event, broken, incoming, listen_round,
  subscribe_chain_head, handle_message, listen,
}
use signers.Client.Socket.Calls.{answers_to, first_with, received}
use signers.Client.Socket.Ids.{WellFormed, send_rpc_msg-answers}
use signers.Client.Socket.Subscription.{Silent, new_head, heads-order, listen-Silent}
use signers.Client.Socket.Once
use signers.Client.Socket.Once.{uses, calls, subscribes, hears, Reach-once}
use signers.Client.Quorum.{rpc_call}
use signers.Client.Quorum.Outcomes.{told, rounds_of, rpc_call-expected}
use signers.Client.Socket.Pending.{left}
use signers.Client.Quorum.Shutdown.{
  Closing, new_closing, leave, begin_stop, checking, reading, Step, Run, here, next,
}
use signers.Client.Quorum.Shutdown.Waits.{holding, stop_deadlocks}

-- A client with one call in flight and a subscription.
abbrev client : Socket
client = record {
  connected = true;
  id_counter = 2;
  subscription_id = codes "0xab";
  subscription_call_id = [];
  pending = (decimal 2, 7) ∷ [];
  sent = [];
  answered = [];
  heads = [];
  closed = [];
}

abbrev reply : ℕ → Message
reply n = record { id = decimal n; method = []; error = none; result = codes "{}"; params = none }

send_rpc_msg-answers_example :
    let (r, t) = send_rpc_msg true 8 (codes "net_version") (encoded (codes "[]")) client in
    (r ≡ ok tt)
    × (find (decimal 3) client.pending ≡ none)
    × WellFormed t
    × (answers_to 8 (listen (map received (reply 2 ∷ reply 3 ∷ [])) t).answered
        ≡ [] ++ first_with (decimal 3) (reply 2 ∷ reply 3 ∷ []))
send_rpc_msg-answers_example =
    send_rpc_msg-answers client 8 (codes "net_version") (codes "[]") (reply 2 ∷ reply 3 ∷ []) refl
      (omega arith) ((2, omega arith, refl), tt) (refl, tt)

heads-order_example :
    (listen (map received (map (new_head client.subscription_id) (5 ∷ 6 ∷ []))) client).heads
    ≡ [] ++ 5 ∷ 6 ∷ []
unfolding find text_eq print
heads-order_example = heads-order (5 ∷ 6 ∷ []) client refl refl refl

-- A client that waits for the answer to its subscription call.
abbrev waiting : Socket
waiting = record client { subscription_id = []; subscription_call_id = decimal 1 }

abbrev breakdown : List Event
breakdown =
    (record { dialed = false; written = false; read = broken })
    ∷ (record { dialed = true; written = true; read = incoming (new_head (codes "0xab") 9) })
    ∷ []

listen-Silent_example : Silent waiting (listen breakdown waiting)
unfolding text_eq print
listen-Silent_example = listen-Silent breakdown waiting refl (tt, (refl, tt))

abbrev fresh_client : Socket
fresh_client = record client { id_counter = 0; subscription_id = []; pending = [] }

abbrev subscribed_client : Socket
subscribed_client = (subscribe_chain_head true fresh_client).1

abbrev busy_client : Socket
busy_client = (send_rpc_msg true 7 (codes "net_version") (encoded (codes "[]")) subscribed_client).1

none_used : (ch : ℕ) → uses ch fresh_client ≤ 1
unfolding count
none_used ch = omega arith

seven_unused : uses 7 subscribed_client ≡ 0
unfolding subscribe_chain_head count
seven_unused = refl

-- A client that subscribes, makes a call and receives its answer.
Reach-once_example : uses 7 (listen_round (received (reply 2)) busy_client) ≤ 1
Reach-once_example =
    Reach-once none_used
      (Once.next
        (Once.next (Once.next Once.here (subscribes true fresh_client)) (
          calls true 7 (codes "net_version") (encoded (codes "[]")) subscribed_client seven_unused))
        (hears (received (reply 2)) busy_client))
      7

seven_answered : length (answers_to 7 (listen_round (received (reply 2)) busy_client).answered) ≡ 1
unfolding listen_round send_rpc_msg subscribe_chain_head handle_message text_eq print
seven_answered = refl

-- The answer is decoded to its length.
abbrev decode_length : Text → Option ℕ
decode_length t = some (length t)

rpc_call-expected_example :
    let (r, t) =
      rpc_call decode_length decode_length true 8
        (codes "net_version")
        (encoded (codes "[]"))
        (rounds_of (reply 2 ∷ reply 3 ∷ []) false)
        client in
    (r ≡ told decode_length decode_length (first_with (decimal 3) (reply 2 ∷ reply 3 ∷ [])) false)
    × (find (decimal 3) t.pending ≡ left 8 (first_with (decimal 3) (reply 2 ∷ reply 3 ∷ [])))
unfolding count
rpc_call-expected_example =
    rpc_call-expected client 8 (codes "net_version") (codes "[]") (reply 2 ∷ reply 3 ∷ []) refl
      (omega arith) ((2, omega arith, refl), tt) refl decode_length decode_length false

-- Stop is called while the listener reads.
abbrev reading_client : Closing
reading_client = record new_closing { place = reading; count = 1 }

abbrev checking_again : Closing
checking_again = record (begin_stop reading_client) { place = checking }

stop_deadlocks_example :
    Run new_closing 4 (holding 5) × ((t : Closing) → ¬ Step (begin_stop (leave (holding 5))) t)
stop_deadlocks_example = stop_deadlocks 5
