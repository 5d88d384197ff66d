-- ===== src/Client/Quorum.antt =====
-- client/quorum.go: a QuorumClient and its calls with a timeout.
pub mod Outcomes
pub mod Shutdown
use signers.Base.{
  ℕ, ◌+◌, Bool, true, false, List, [], ◌∷◌, ◌++◌, Option, none, some, if◌then◌else◌, contains,
}
use signers.Base.Int.{ℤ, pos, negsuc}
use signers.Base.Text.{Text, codes, text_eq, decimal}
use signers.Base.Exec.{Result, ok, err, Outcome, returned, exited, panicked, blocked}
use signers.Client.Socket.{
  MsgError, Message, Args, Socket, Event, new_web_socket_client, subscribe_chain_head, send_rpc_msg,
  listen,
}
use signers.Client.Socket.Calls.{answers_to}

-- The errors of rpcCall: that of sendRPCMsg, a channel that was closed, the error of the answer, and
-- the timer.
pub data RpcError : Type 0 where
  not_sent : RpcError
  nil_response : RpcError
  remote : MsgError → RpcError
  timeout : RpcError

pub data RpcResult (V : Type 0) : Type 0 where
  value : V → RpcResult V
  error : RpcError → RpcResult V

-- msgError.Error()
print_code : ℤ → Text
print_code (pos n) = decimal n
print_code (negsuc n) = codes "-" ++ decimal (n + 1)

unfoldable pub msg_error_text : MsgError → Text
unfolding print_code
msg_error_text e = if text_eq e.text [] then codes "error code: " ++ print_code e.code else e.text

-- NewQuorumClient: `dialed` is whether the first dial succeeds. The listener starts.
unfoldable pub new_quorum_client : Bool → Result Socket
unfolding new_web_socket_client
new_quorum_client dialed = new_web_socket_client dialed

-- What the select of rpcCall sees first.
pub data Arrival : Type 0 where
  answer : Message → Arrival
  no_channel : Arrival
  tick : Arrival

first_arrival : List Message → Bool → Arrival
first_arrival (m ∷ ms) is_closed = answer m
first_arrival [] true = no_channel
first_arrival [] false = tick

-- Of a channel with a buffer of one: an answer in it is read before its end.
unfoldable pub arrival : ℕ → Socket → Arrival
unfolding first_arrival
arrival ch s = first_arrival (answers_to ch s.answered) (contains ch s.closed)

-- The target of the answer is the caller's: `decode` is json.Unmarshal into it, and `assign` is the
-- assignment of the raw bytes to it, which panics where its type is another.
module _ {V : Type 0} (decode : Text → Option V) (assign : Text → Option V) where
  assigned : Option V → Outcome (RpcResult V)
  assigned (some v) = returned (value v)
  assigned none = panicked

  decoded : Text → Option V → Outcome (RpcResult V)
  unfolding assigned
  decoded raw (some v) = returned (value v)
  decoded raw none = assigned (assign raw)

  without_error : Message → Option MsgError → Outcome (RpcResult V)
  unfolding decoded
  without_error m (some e) = returned (error (remote e))
  without_error m none = decoded m.result (decode m.result)

  unfoldable pub rpc_result : Arrival → Outcome (RpcResult V)
  unfolding without_error
  rpc_result (answer m) = without_error m m.error
  rpc_result no_channel = returned (error nil_response)
  rpc_result tick = returned (error timeout)

  after_send : Result (Unit {0}) → ℕ → List Event → Socket → Outcome (RpcResult V) × Socket
  unfolding rpc_result arrival listen
  after_send (err e) ch events s = (returned (error not_sent), s)
  after_send (ok u) ch events s = let t = listen events s in (rpc_result (arrival ch t), t)

  -- rpcCall with a new channel: `events` are the rounds of the listener until the timer ticks.
  unfoldable pub rpc_call :
      Bool → ℕ → Text → Args → List Event → Socket → Outcome (RpcResult V) × Socket
  unfolding send_rpc_msg after_send
  rpc_call written ch method args events s =
      let (r, t) = send_rpc_msg written ch method args s in after_send r ch events t
