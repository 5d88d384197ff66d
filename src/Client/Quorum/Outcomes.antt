-- ===== src/Client/Quorum/Outcomes.antt =====
-- How a call of client/quorum.go ends: with the answer, with the connection, or with the timer.
use signers.Base.{
  ℕ, ◌+◌, ◌^◌, ◌<◌, ◌≡◌, refl, sym, ap, ◌∙◌, Bool, true, false, List, [], ◌∷◌, ◌++◌, map, Option,
  none, some, arith, contains, length, if◌then◌else◌,
}
use mathlib.Core.Path.{ap₂}
use signers.Base.Text.{Text, decimal}
use signers.Base.Exec.{Outcome, returned, panicked}
use signers.Client.Socket.{
  encoded, Message, MsgError, Socket, Event, broken, find, listen, reset_conn,
}
use signers.Client.Socket.Calls.{answers_to, first_with, received}
use signers.Client.Socket.Entries.{Absent}
use signers.Client.Socket.Ids.{
  WellFormed, called, found_called, send_rpc_msg-eq, send_rpc_msg-answers,
}
use signers.Client.Socket.Once.{channels, uses}
use signers.Client.Quorum.{
  Arrival, answer, no_channel, tick, first_arrival, arrival, rpc_result, rpc_call, without_error,
  decoded, assigned, RpcResult, value, error, nil_response, remote, timeout,
}
use signers.Client.Socket.Pending.{
  listen-append, listen-open, listen-left, contains-channels, contains-append, count-contains,
  count-Absent, left,
}

length-zero : {A : Type 0} (xs : List A) → length xs ≡ 0 → xs ≡ []
length-zero [] h = refl
length-zero (x ∷ xs) h = absurd (omega arith)

-- The rounds of a listener that receives these messages, and then loses the connection or not.
abbrev pub rounds_of : List Message → Bool → List Event
rounds_of ms false = map received ms
rounds_of ms true =
    map received ms ++ (record { dialed = false; written = false; read = broken }) ∷ []

-- What the call is to see: the first message with its id; else the end of the connection, or the
-- timer.
abbrev pub expected : List Message → Bool → Arrival
expected (m ∷ ms) lost = answer m
expected [] true = no_channel
expected [] false = tick

first_arrival-open : (l : List Message) → first_arrival l false ≡ expected l false
unfolding first_arrival
first_arrival-open [] = refl
first_arrival-open (m ∷ l) = refl

first_arrival-lost :
    (l : List Message) (b : Bool) → (l ≡ [] → b ≡ true) → first_arrival l b ≡ expected l true
unfolding first_arrival
first_arrival-lost [] b h = rw (h refl) refl
first_arrival-lost (m ∷ l) b h = refl

module _ {V : Type 0} (decode : Text → Option V) (assign : Text → Option V) where
  -- What a call is to return when these are the answers with its id: of the first, the error if
  -- it has one, else its result as JSON, else its result as it is; a panic where the caller's
  -- variable cannot hold that.
  unfoldable pub told : List Message → Bool → Outcome (RpcResult V)
  told (m ∷ ms) lost = elim m.error [
    | some e ↦ returned (error (remote e))
    | none ↦ elim (decode m.result) [
      | some v ↦ returned (value v)
      | none ↦ elim (assign m.result) [ some v ↦ returned (value v) | none ↦ panicked ]
    ]
  ]
  told [] true = returned (error nil_response)
  told [] false = returned (error timeout)

  told-eq :
      (l : List Message) (lost : Bool) → rpc_result decode assign (expected l lost) ≡ told l lost
  unfolding rpc_result told without_error decoded assigned
  told-eq (m ∷ ms) lost = by_parts m.error (decode m.result) (assign m.result) refl refl
    where
      by_parts :
          (e : Option MsgError) (v w : Option V)
          → decode m.result ≡ v
          → assign m.result ≡ w
          → without_error decode assign m e ≡ (elim e [
            | some e' ↦ returned (error (remote e'))
            | none ↦ elim v [
              | some x ↦ returned (value x)
              | none ↦ elim w [ some x ↦ returned (value x) | none ↦ panicked ]
            ]
          ])
      by_parts (some e) v w p q = refl
      by_parts none (some x) w p q = rw p refl
      by_parts none none (some x) p q = rw (p, q) refl
      by_parts none none none p q = rw (p, q) refl
  told-eq [] true = refl
  told-eq [] false = refl

module _ (s : Socket) (ch : ℕ) (method params : Text) (ms : List Message) (up : s.connected ≡ true)
    (low : s.id_counter + 1 < 2 ^ 32) (issued : WellFormed s) (fresh : uses ch s ≡ 0) where
  abbrev id : Text
  id = decimal (s.id_counter + 1)

  abbrev sent_socket : Socket
  sent_socket = called s ch method params

  absent : Absent ch s.pending
  absent = count-Absent ch s.pending (omega (arith, fresh))

  answers : answers_to ch (listen (map received ms) sent_socket).answered ≡ first_with id ms
  answers =
      let (sent, new, formed, gets) =
        send_rpc_msg-answers s ch method params ms up low issued absent in
      let none_before = length-zero (answers_to ch s.answered) (omega (arith, fresh)) in
      let same = send_rpc_msg-eq s ch method params up low in
      ap (λ r. answers_to ch (listen (map received ms) r.1).answered) (sym same)
      ∙ gets
      ∙ ap (λ l. l ++ first_with id ms) none_before

  module _ {V : Type 0} (decode : Text → Option V) (assign : Text → Option V) where
    rpc_call-eq :
        (events : List Event)
        → rpc_call decode assign true ch method (encoded params) events s ≡ (
          rpc_result decode assign (arrival ch (listen events sent_socket)),
          listen events sent_socket,
        )
    unfolding rpc_call
    rpc_call-eq events = rw (send_rpc_msg-eq s ch method params up low) refl

    -- The state when the rounds are over.
    abbrev heard : Socket
    heard = listen (map received ms) sent_socket

    lost_eq : listen (rounds_of ms true) sent_socket ≡ record heard {
      connected = false;
      closed = heard.closed ++ channels heard.pending;
      pending = [];
    }
    unfolding listen reset_conn
    lost_eq =
        listen-append (map received ms) _ sent_socket ∙ rw (listen-open ms sent_socket up).0 refl

    pending_left : find id heard.pending ≡ left ch (first_with id ms)
    pending_left = listen-left id ch ms sent_socket up (found_called s ch method params)

    arrival-expected :
        (lost : Bool)
        → arrival ch (listen (rounds_of ms lost) sent_socket) ≡ expected (first_with id ms) lost
    unfolding arrival
    arrival-expected false =
        ap₂ first_arrival answers (
          ap (contains ch) (listen-open ms sent_socket up).1
          ∙ count-contains ch s.closed (omega (arith, fresh)))
        ∙ first_arrival-open (first_with id ms)
    arrival-expected true =
        ap (arrival ch) lost_eq
        ∙ ap (λ l. first_arrival l (contains ch (heard.closed ++ channels heard.pending))) answers
        ∙ first_arrival-lost (first_with id ms) _ (λ none_came.
          contains-append ch heard.closed (channels heard.pending)
            (contains-channels id ch heard.pending (pending_left ∙ ap (left ch) none_came)))

    -- On an open connection, while fewer than 2^32 - 1 ids were given out, a call with a new channel
    -- ends, whatever messages arrive before the timer ticks. The first answer that has its id
    -- decides: its error is returned, or else its result, decoded or as it is. Without such an
    -- answer, "nil rpc response" is returned if the connection is lost, and "rpc call timeout" if
    -- not. Only in the last case is the call still pending afterwards.
    pub rpc_call-expected :
        (lost : Bool)
        → let (r, t) =
            rpc_call decode assign true ch method (encoded params) (rounds_of ms lost) s in
          (r ≡ told decode assign (first_with id ms) lost)
          × (find id t.pending ≡ (if lost then none else left ch (first_with id ms)))
    unfolding find
    rpc_call-expected lost = rw (rpc_call-eq (rounds_of ms lost)) (
      ap (rpc_result decode assign) (arrival-expected lost)
          ∙ told-eq decode assign (first_with id ms) lost,
      pending_after lost,
    )
      where
        pending_after :
            (b : Bool)
            → find id (listen (rounds_of ms b) sent_socket).pending
              ≡ (if b then none else left ch (first_with id ms))
        pending_after false = pending_left
        pending_after true = ap (λ t. find id t.pending) lost_eq
