-- ===== src/Client/Socket/Subscription.antt =====
-- The subscription to new blocks, and what a lost connection does to it (client/ws.go).
use mathlib.Core.Path.{subst}
use signers.Base.{
  ℕ, ◌+◌, ◌^◌, ◌<◌, ◌≡◌, refl, sym, ◌∙◌, Bool, true, false, List, [], ◌∷◌, ◌++◌, map, append_assoc,
  append-nil, Option, none, some, All, if◌then◌else◌, Bool-cases, inl, inr, Option-cases,
}
use signers.Base.Text.{Text, codes, decimal, text_eq, text_eq_refl}
use signers.Client.Socket.{
  Notification, Message, Socket, find, Event, Incoming, broken, undecodable, incoming, handle_head,
  handle_other, handle_message, read_message, listen_round, listen,
}
use signers.Client.Socket.Calls.{
  received, listen-received, handle_message-other, handle_message-found,
}
use signers.Client.Socket.Ids.{no_wrap}

-- The notification of a new block.
abbrev pub new_head : Text → ℕ → Message
new_head sub number = record {
  id = [];
  method = codes "eth_subscription";
  error = none;
  result = [];
  params = some (record { subscription = sub; head = some number });
}

handle_head-mine :
    (s : Socket) (number : ℕ)
    → text_eq s.subscription_id [] ≡ false
    → handle_head (some (record { subscription = s.subscription_id; head = some number })) s
      ≡ record s { heads = s.heads ++ number ∷ [] }
unfolding handle_head
handle_head-mine s number subscribed = rw (subscribed, text_eq_refl s.subscription_id) refl

not_empty : (id : Text) → text_eq id [] ≡ false → text_eq [] id ≡ false
unfolding text_eq
not_empty [] h = cc
not_empty (c ∷ id) h = refl

handle_other-new_head :
    (s : Socket) (number : ℕ)
    → text_eq s.subscription_id [] ≡ false
    → handle_other (new_head s.subscription_id number) s
      ≡ record s { heads = s.heads ++ number ∷ [] }
unfolding handle_other
handle_other-new_head s number subscribed =
    let mine = handle_head-mine s number subscribed in
    let method = text_eq_refl (codes "eth_subscription") in
    elim (Bool-cases (text_eq s.subscription_call_id [])) [
      | inl settled ↦ rw settled (rw (method, mine) refl)
      | inr waiting ↦
          rw waiting (rw (not_empty s.subscription_call_id waiting) (rw (method, mine) refl))
    ]

-- On an open connection with a subscription, and without a call under the empty id, the blocks
-- that are notified for the subscription are handed over, each once and in the order of arrival.
pub heads-order :
    (ns : List ℕ) (s : Socket)
    → s.connected ≡ true
    → text_eq s.subscription_id [] ≡ false
    → find [] s.pending ≡ none
    → (listen (map received (map (new_head s.subscription_id) ns)) s).heads ≡ s.heads ++ ns
unfolding listen
heads-order [] s up subscribed clear = sym (append-nil _)
heads-order (n ∷ ns) s up subscribed clear =
    let t : Socket = record s { heads = s.heads ++ n ∷ [] } in
    rw (listen-received (new_head s.subscription_id n) (map (new_head s.subscription_id) ns) s up) (
      rw (handle_message-other (new_head s.subscription_id n) s clear) (
        rw (handle_other-new_head s n subscribed)
          (heads-order ns t up subscribed clear ∙ append_assoc s.heads (n ∷ []) ns)))

-- After a lost connection, a round that dials and writes with success subscribes again, under a
-- new id, whose answer is then waited for.
pub listen_round-resubscribes :
    (s : Socket)
    → s.connected ≡ false
    → text_eq s.subscription_id [] ≡ false
    → s.id_counter + 1 < 2 ^ 32
    → let t = listen_round (record { dialed = true; written = true; read = undecodable }) s in
      let id = decimal (s.id_counter + 1) in
      (t.connected ≡ true)
      × (t.subscription_call_id ≡ id)
      × (t.sent
          ≡ s.sent
            ++ (record { id = id; method = codes "eth_subscribe"; params = codes "[\"newHeads\"]" })
              ∷ [])
unfolding listen_round
listen_round-resubscribes s down subscribed low =
    rw (down, subscribed, no_wrap s.id_counter low) (refl, refl, refl)

-- Without a subscription, nothing more is written and no block is handed over.
abbrev pub Silent : Socket → Socket → Type 0
Silent s t =
    (t.sent ≡ s.sent)
    × (t.heads ≡ s.heads)
    × (t.subscription_id ≡ [])
    × (t.subscription_call_id ≡ s.subscription_call_id)

Silent-if : (b : Bool) (s t u : Socket) → Silent s t → Silent s u → Silent s (if b then t else u)
Silent-if true s t u h k = h
Silent-if false s t u h k = k

handle_head-Silent :
    (o : Option Notification) (s : Socket) → s.subscription_id ≡ [] → handle_head o s ≡ s
unfolding handle_head
handle_head-Silent none s empty = refl
handle_head-Silent (some note) s empty = rw empty (rw (text_eq_refl []) refl)

handle_other-Silent :
    (m : Message) (s : Socket)
    → s.subscription_id ≡ []
    → text_eq m.id s.subscription_call_id ≡ false
    → Silent s (handle_other m s)
unfolding handle_other
handle_other-Silent m s empty foreign =
    let same : Silent s s = (refl, refl, empty, refl) in
    rw foreign (
      rw (handle_head-Silent m.params s empty) (
        Silent-if (text_eq s.subscription_call_id []) s _ _
          (Silent-if (text_eq m.method (codes "eth_subscription")) s s s same same)
          (Silent-if (text_eq m.method (codes "eth_subscription")) s s s same same)))

-- What is read does not answer the subscription call `call`.
abbrev pub ForeignRead : Text → Incoming → Type 0
ForeignRead call broken = Unit
ForeignRead call undecodable = Unit
ForeignRead call (incoming m) = text_eq m.id call ≡ false

handle_message-Silent :
    (m : Message) (s : Socket)
    → s.subscription_id ≡ []
    → text_eq m.id s.subscription_call_id ≡ false
    → Silent s (handle_message m s)
handle_message-Silent m s empty foreign = elim (Option-cases (find m.id s.pending)) [
  | inl missing ↦ rw (handle_message-other m s missing) (handle_other-Silent m s empty foreign)
  | inr (c, found) ↦ rw (handle_message-found m s c found) (refl, refl, empty, refl)
]

read_message-Silent :
    (i : Incoming) (s : Socket)
    → s.subscription_id ≡ []
    → ForeignRead s.subscription_call_id i
    → Silent s (read_message i s)
unfolding read_message
read_message-Silent broken s empty foreign = (refl, refl, empty, refl)
read_message-Silent undecodable s empty foreign = (refl, refl, empty, refl)
read_message-Silent (incoming m) s empty foreign = handle_message-Silent m s empty foreign

listen_round-Silent :
    (e : Event) (s : Socket)
    → s.subscription_id ≡ []
    → ForeignRead s.subscription_call_id e.read
    → Silent s (listen_round e s)
unfolding listen_round
listen_round-Silent e s empty foreign =
    let t : Socket = record s { connected = true } in
    let same : Silent s s = (refl, refl, empty, refl) in
    Silent-if s.connected s _ _ (read_message-Silent e.read s empty foreign) (
      Silent-if e.dialed s _ _
        (rw empty (
          rw (text_eq_refl [])
            (read_message-Silent e.read (record t { subscription_id = [] }) refl foreign)))
        same)

-- From a state without a subscription, whatever happens afterwards, on this or on any new
-- connection, the listener writes no request, hands over no block and gets no subscription, as
-- long as no message that is read has the id of the subscription call that waits for its answer.
-- So a connection that is lost before that answer leaves the client without a subscription.
pub listen-Silent :
    (es : List Event) (s : Socket)
    → s.subscription_id ≡ []
    → All (λ e. ForeignRead s.subscription_call_id e.read) es
    → Silent s (listen es s)
unfolding listen
listen-Silent [] s empty foreign = (refl, refl, empty, refl)
listen-Silent (e ∷ es) s empty (here, later) =
    let (sent, heads, still, same) = listen_round-Silent e s empty here in
    let (sent', heads', still', same') =
      listen-Silent es (listen_round e s) still
        (subst (λ call. All (λ x. ForeignRead call x.read) es) (sym same) later) in
    (sent' ∙ sent, heads' ∙ heads, still', same' ∙ same)
