-- ===== src/Client/Socket/Once.antt =====
-- The channels of client/ws.go over any order of calls, subscriptions and rounds of the listener.
use signers.Base.{
  ℕ, ◌+◌, ◌≤◌, ◌≡◌, refl, ap, ◌∙◌, Bool, true, false, List, [], ◌∷◌, ◌++◌, map, some, arith, length,
  length-append, count, ◌==◌, if◌then◌else◌, Bool-cases, Option-cases, inl, inr,
}
use signers.Base.Text.{Text, codes, decimal, text_eq}
use signers.Base.Exec.{Result, ok, err, failed}
use signers.Client.Socket.{
  Args, no_args, encoded, refused, Message, Socket, Event, Incoming, broken, undecodable, incoming,
  find, remove, write, set_pending_rpc, send_request, send_rpc_msg, subscribe_chain_head,
  reset_conn, handle_message, read_message, after_subscribe, listen_round, Request, next_counter,
}
use signers.Client.Socket.Calls.{
  answers_to, answers_to-append, handle_other-SameCalls, handle_message-other, handle_message-found,
}

abbrev pub channels : List (Text × ℕ) → List ℕ
channels = map (λ (e : Text × ℕ). e.1)

-- How often a channel is waited on, was answered or was closed.
abbrev pub uses : ℕ → Socket → ℕ
uses ch s = count ch (channels s.pending) + length (answers_to ch s.answered) + count ch s.closed

-- The methods of the client and the rounds of its listener, in any order. A call comes with a
-- channel of its own, as rpcCall makes one for each call.
pub data Step : Socket → Socket → Type 0 where
  calls :
      (written : Bool) (ch : ℕ) (method : Text) (args : Args) (s : Socket)
      → uses ch s ≡ 0
      → Step s (send_rpc_msg written ch method args s).1
  subscribes : (written : Bool) (s : Socket) → Step s (subscribe_chain_head written s).1
  hears : (e : Event) (s : Socket) → Step s (listen_round e s)

pub data Reach (s : Socket) : Socket → Type 0 where
  here : Reach s s
  next : {t u : Socket} → Reach s t → Step t u → Reach s u

count-append : (ch : ℕ) (xs ys : List ℕ) → count ch (xs ++ ys) ≡ count ch xs + count ch ys
unfolding count
count-append ch [] ys = omega arith
count-append ch (x ∷ xs) ys = ground (arith, count-append ch xs ys)

count-remove :
    (ch : ℕ) (id : Text) (ps : List (Text × ℕ))
    → count ch (channels (remove id ps)) ≤ count ch (channels ps)
unfolding count remove
count-remove ch id [] = omega arith
count-remove ch id ((key, c) ∷ ps) = ground (arith, count-remove ch id ps)

-- The entry that is found is removed.
count-found :
    (ch : ℕ) (id : Text) (ps : List (Text × ℕ)) (c : ℕ)
    → find id ps ≡ some c
    → count ch (channels (remove id ps)) + count ch (c ∷ []) ≤ count ch (channels ps)
unfolding count remove find
count-found ch id [] c found = cc
count-found ch id ((key, d) ∷ ps) c found =
    ground (arith, count-found ch id ps c, count-remove ch id ps)

one_answer : (ch c : ℕ) (m : Message) → length (answers_to ch ((c, m) ∷ [])) ≡ count ch (c ∷ [])
unfolding count
one_answer ch c m = ground arith

-- No use more than before, of any channel.
abbrev NoMore : ℕ → Socket → Socket → Type 0
NoMore ch s t = uses ch t ≤ uses ch s

module _ (ch : ℕ) where
  reset_conn-NoMore : (s : Socket) → NoMore ch s (reset_conn s)
  unfolding reset_conn count
  reset_conn-NoMore s = omega (arith, count-append ch s.closed (channels s.pending))

  handle_message-NoMore : (m : Message) (s : Socket) → NoMore ch s (handle_message m s)
  handle_message-NoMore m s = elim (Option-cases (find m.id s.pending)) [
    | inl missing ↦
        let (answered, pending, up, closed) = handle_other-SameCalls m s in
        rw (handle_message-other m s missing) (rw (answered, pending, closed) (omega arith))
    | inr (c, found) ↦ rw (handle_message-found m s c found) (
        rw (answers_to-append ch s.answered ((c, m) ∷ [])) (
          rw (length-append (answers_to ch s.answered) (answers_to ch ((c, m) ∷ [])))
            (omega (arith, count-found ch m.id s.pending c found, one_answer ch c m))))
  ]

  read_message-NoMore : (i : Incoming) (s : Socket) → NoMore ch s (read_message i s)
  unfolding read_message
  read_message-NoMore broken s = reset_conn-NoMore s
  read_message-NoMore undecodable s = omega arith
  read_message-NoMore (incoming m) s = handle_message-NoMore m s

  write-uses :
      (written : Bool) (request : Request) (s : Socket)
      → uses ch (write written request s).1 ≡ uses ch s
  unfolding write
  write-uses true request s = refl
  write-uses false request s = refl

  subscribe_chain_head-uses :
      (written : Bool) (s : Socket) → uses ch (subscribe_chain_head written s).1 ≡ uses ch s
  unfolding subscribe_chain_head
  subscribe_chain_head-uses written s = by_connected s.connected
    where
      request : Request
      request = record {
        id = decimal (next_counter s);
        method = codes "eth_subscribe";
        params = codes "[\"newHeads\"]";
      }

      numbered : Socket
      numbered = record s {
        id_counter = next_counter s;
        subscription_call_id = decimal (next_counter s);
      }

      by_connected :
          (b : Bool)
          → uses ch (if b then write written request numbered else (err failed, s)).1 ≡ uses ch s
      by_connected true = write-uses written request numbered
      by_connected false = refl

  after_subscribe-NoMore :
      (r : Result (Unit {0})) (s : Socket) (i : Incoming) → NoMore ch s (after_subscribe (r, s) i)
  unfolding after_subscribe
  after_subscribe-NoMore (ok u) s i = read_message-NoMore i s
  after_subscribe-NoMore (err e) s i = reset_conn-NoMore s

  NoMore-if :
      (b : Bool) (s t u : Socket) → NoMore ch s t → NoMore ch s u → NoMore ch s (if b then t else u)
  NoMore-if true s t u h k = h
  NoMore-if false s t u h k = k

  listen_round-NoMore : (e : Event) (s : Socket) → NoMore ch s (listen_round e s)
  unfolding listen_round
  listen_round-NoMore e s =
      let t : Socket = record s { connected = true } in
      let subscribed = subscribe_chain_head e.written t in
      let again : NoMore ch s (after_subscribe subscribed e.read) = omega (
        arith,
        after_subscribe-NoMore subscribed.0 subscribed.1 e.read,
        subscribe_chain_head-uses e.written t,
      ) in
      NoMore-if s.connected s _ _ (read_message-NoMore e.read s) (
        NoMore-if e.dialed s _ s
          (NoMore-if (text_eq s.subscription_id []) s _ _ (read_message-NoMore e.read t) again)
          (omega arith))

  -- A call uses its channel, and no other.
  set_pending_rpc-uses :
      (id : Text) (c : ℕ) (s : Socket)
      → uses ch (set_pending_rpc id c s) ≤ uses ch s + count ch (c ∷ [])
  unfolding set_pending_rpc count
  set_pending_rpc-uses id c s = ground (arith, count-remove ch id s.pending)

  send_request-uses :
      (written : Bool) (c : ℕ) (method : Text) (args : Args) (s : Socket)
      → uses ch (send_request written c method args s).1 ≤ uses ch s + count ch (c ∷ [])
  unfolding send_request
  send_request-uses written c method no_args s = omega (
    arith,
    write-uses written _ (set_pending_rpc (decimal s.id_counter) c s),
    set_pending_rpc-uses (decimal s.id_counter) c s,
  )
  send_request-uses written c method (encoded params) s = omega (
    arith,
    write-uses written _ (set_pending_rpc (decimal s.id_counter) c s),
    set_pending_rpc-uses (decimal s.id_counter) c s,
  )
  send_request-uses written c method refused s = omega arith

  send_rpc_msg-uses :
      (written : Bool) (c : ℕ) (method : Text) (args : Args) (s : Socket)
      → uses ch (send_rpc_msg written c method args s).1 ≤ uses ch s + count ch (c ∷ [])
  unfolding send_rpc_msg
  send_rpc_msg-uses written c method args s = by_connected s.connected
    where
      by_connected :
          (b : Bool)
          → uses ch
              (if b
                then send_request written c method args (record s { id_counter = next_counter s })
                else (err failed, s)).1
            ≤ uses ch s + count ch (c ∷ [])
      by_connected true =
          send_request-uses written c method args (record s { id_counter = next_counter s })
      by_connected false = omega arith

one_use : (ch c : ℕ) (n m : ℕ) → m ≤ n + count ch (c ∷ []) → n ≤ 1 → (ch ≡ c → n ≡ 0) → m ≤ 1
unfolding count
one_use ch c n m h small fresh = elim (Bool-cases (c == ch)) [
  | inl same ↦ ground (arith, fresh (ground arith))
  | inr other ↦ ground arith
]

-- From a socket on which every channel is used once at most, whatever calls are made, each with a
-- channel of its own, whatever is subscribed to, and whatever the listener meets, also lost
-- connections and ids that wrap around: every channel is used once at most. So it is waited on
-- under one id, or it got one answer, or it was closed once. No second answer fills its buffer of
-- one, which would stop the listener, none is sent to it after it was closed, and it is not closed
-- twice, which would panic.
pub Reach-once : {s t : Socket} → ((ch : ℕ) → uses ch s ≤ 1) → Reach s t → (ch : ℕ) → uses ch t ≤ 1
Reach-once once here ch = once ch
Reach-once once (next r (calls written c method args s fresh)) ch =
    one_use ch c (uses ch s) _ (send_rpc_msg-uses ch written c method args s) (Reach-once once r ch)
      (λ same. ap (λ x. uses x s) same ∙ fresh)
Reach-once once (next r (subscribes written s)) ch =
    omega (arith, subscribe_chain_head-uses ch written s, Reach-once once r ch)
Reach-once once (next r (hears e s)) ch =
    omega (arith, listen_round-NoMore ch e s, Reach-once once r ch)
