-- ===== src/Client/Socket.antt =====
-- client/ws.go: the state of a webSocketClient, its calls, and the steps of its listener.
pub mod Entries
pub mod Calls
pub mod Ids
pub mod Subscription
pub mod Once
pub mod Pending
use signers.Base.{
  ℕ, ◌+◌, ◌%◌, ◌^◌, Bool, true, false, List, [], ◌∷◌, ◌++◌, map, Option, none, some, if◌then◌else◌,
  ◌&&◌,
}
use signers.Base.Int.{ℤ}
use signers.Base.Text.{Text, codes, text_eq, decimal}
use signers.Base.Exec.{Result, ok, err, failed}

-- A notification: params decoded as a subMessage, and its result as the number of a RawHeader.
pub record Notification : Type 0 where
  pub subscription : Text
  pub head : Option ℕ

-- The error of an answer; its data is never read.
pub record MsgError : Type 0 where
  pub code : ℤ
  pub text : Text

-- A decoded message. `params` is none where params does not decode as a subMessage.
pub record Message : Type 0 where
  pub id : Text
  pub method : Text
  pub error : Option MsgError
  pub result : Text
  pub params : Option Notification

-- What is written to the connection.
pub record Request : Type 0 where
  pub id : Text
  pub method : Text
  pub params : Text

-- The arguments of a call: none, what json.Marshal makes of them, or its error.
pub data Args : Type 0 where
  no_args : Args
  encoded : Text → Args
  refused : Args

-- `connected` is conn != nil, and a channel is a number. The last four fields are what was
-- written, delivered to the channels of calls and to chainHeadChan, and closed.
pub record Socket : Type 0 where
  pub connected : Bool
  pub id_counter : ℕ
  pub subscription_id : Text
  pub subscription_call_id : Text
  pub pending : List (Text × ℕ)
  pub sent : List Request
  pub answered : List (ℕ × Message)
  pub heads : List ℕ
  pub closed : List ℕ

-- `dialed` is whether the first dial succeeded.
unfoldable pub new_web_socket_client : Bool → Result Socket
new_web_socket_client false = err failed
new_web_socket_client true = ok (record {
  connected = true;
  id_counter = 0;
  subscription_id = [];
  subscription_call_id = [];
  pending = [];
  sent = [];
  answered = [];
  heads = [];
  closed = [];
})

-- A lookup in the map of pending calls.
unfoldable pub find : Text → List (Text × ℕ) → Option ℕ
find id [] = none
find id ((key, ch) ∷ entries) = if text_eq key id then some ch else find id entries

-- delete(m, id)
unfoldable pub remove : Text → List (Text × ℕ) → List (Text × ℕ)
remove id [] = []
remove id ((key, ch) ∷ entries) =
    let rest = remove id entries in if text_eq key id then rest else (key, ch) ∷ rest

-- The counter is a uint32.
unfoldable pub next_counter : Socket → ℕ
next_counter s = (s.id_counter + 1) % 2 ^ 32

unfoldable pub set_pending_rpc : Text → ℕ → Socket → Socket
unfolding remove
set_pending_rpc id ch s = record s { pending = (id, ch) ∷ remove id s.pending }

-- conn.WriteJSON, which writes the request or fails.
write : Bool → Request → Socket → Result (Unit {0}) × Socket
write true request s = (ok tt, record s { sent = s.sent ++ request ∷ [] })
write false request s = (err failed, s)

unfoldable pub subscribe_chain_head : Bool → Socket → Result (Unit {0}) × Socket
unfolding next_counter write
subscribe_chain_head written s =
    if s.connected
    then (let id = decimal (next_counter s) in
        write written
          (record { id = id; method = codes "eth_subscribe"; params = codes "[\"newHeads\"]" })
          (record s { id_counter = next_counter s; subscription_call_id = id }))
    else (err failed, s)

-- What follows the choice of the id: a call that json.Marshal refuses has used up its id.
send_request : Bool → ℕ → Text → Args → Socket → Result (Unit {0}) × Socket
unfolding write set_pending_rpc
send_request written ch method no_args s =
    let id = decimal s.id_counter in
    write written (record { id = id; method = method; params = [] }) (set_pending_rpc id ch s)
send_request written ch method (encoded params) s =
    let id = decimal s.id_counter in
    write written (record { id = id; method = method; params = params }) (set_pending_rpc id ch s)
send_request written ch method refused s = (err failed, s)

unfoldable pub send_rpc_msg : Bool → ℕ → Text → Args → Socket → Result (Unit {0}) × Socket
unfolding send_request next_counter
send_rpc_msg written ch method args s =
    if s.connected
    then send_request written ch method args (record s { id_counter = next_counter s })
    else (err failed, s)

unfoldable pub reset_conn : Socket → Socket
reset_conn s = record s {
  connected = false;
  closed = s.closed ++ map (λ (e : Text × ℕ). e.1) s.pending;
  pending = [];
}

-- strings.Trim(s, "\""): the quotes at both ends.
unfoldable pub trim_left : Text → Text
trim_left [] = []
trim_left (c ∷ s) = let rest = trim_left s in if text_eq (c ∷ []) (codes "\"") then rest else c ∷ s

unfoldable pub trim_right : Text → Text
trim_right [] = []
trim_right (c ∷ s) =
    let rest = trim_right s in
    if text_eq rest [] && text_eq (c ∷ []) (codes "\"") then [] else c ∷ rest

handle_head : Option Notification → Socket → Socket
handle_head none s = s
handle_head (some note) s =
    if text_eq s.subscription_id []
    then s
    else if text_eq note.subscription s.subscription_id
    then elim note.head [ none ↦ s | some number ↦ record s { heads = s.heads ++ number ∷ [] } ]
    else s

-- A message that answers no pending call.
pub handle_other : Message → Socket → Socket
unfolding handle_head trim_left trim_right
handle_other m s =
    if text_eq s.subscription_call_id []
    then (if text_eq m.method (codes "eth_subscription") then handle_head m.params s else s)
    else if text_eq m.id s.subscription_call_id
    then record s { subscription_call_id = []; subscription_id = trim_right (trim_left m.result) }
    else if text_eq m.method (codes "eth_subscription")
    then handle_head m.params s
    else s

handle_found : Option ℕ → Message → Socket → Socket
unfolding handle_other remove
handle_found (some ch) m s = record s {
  pending = remove m.id s.pending;
  answered = s.answered ++ (ch, m) ∷ [];
}
handle_found none m s = handle_other m s

-- getPendingRPC, and what is done with the message.
unfoldable pub handle_message : Message → Socket → Socket
unfolding handle_found find
handle_message m s = handle_found (find m.id s.pending) m s

-- What a read gives: an error, bytes that do not decode, or a message.
pub data Incoming : Type 0 where
  broken : Incoming
  undecodable : Incoming
  incoming : Message → Incoming

unfoldable pub read_message : Incoming → Socket → Socket
unfolding handle_message reset_conn
read_message broken s = reset_conn s
read_message undecodable s = s
read_message (incoming m) s = handle_message m s

-- Whether the dial and the write of the new subscription succeed, and what is read.
pub record Event : Type 0 where
  pub dialed : Bool
  pub written : Bool
  pub read : Incoming

after_subscribe : Result (Unit {0}) × Socket → Incoming → Socket
unfolding read_message reset_conn
after_subscribe (ok u, s) i = read_message i s
after_subscribe (err e, s) i = reset_conn s

-- One round of the loop of listen.
unfoldable pub listen_round : Event → Socket → Socket
unfolding after_subscribe subscribe_chain_head read_message
listen_round e s =
    if s.connected
    then read_message e.read s
    else if e.dialed
    then (if text_eq s.subscription_id []
        then read_message e.read (record s { connected = true })
        else after_subscribe (subscribe_chain_head e.written (record s { connected = true }))
            e.read)
    else s

unfoldable pub listen : List Event → Socket → Socket
unfolding listen_round
listen [] s = s
listen (e ∷ es) s = listen es (listen_round e s)
