-- ===== src/Client/Socket/Calls.antt =====
-- The calls of client/ws.go: each answer goes to the channel of its call, and once.
use signers.Base.{
  ℕ, ◌≡◌, inl, inr, refl, sym, ap, ◌∙◌, Bool, true, false, List, [], ◌∷◌, ◌++◌, map, append-nil,
  Option, none, some, arith, ◌==◌, if◌then◌else◌, Bool-cases, Option-cases,
}
use mathlib.Core.Path.{subst}
use signers.Base.Text.{Text, text_eq, text_eq-eq, codes}
use signers.Client.Socket.{
  Notification, handle_head, Message, Socket, find, remove, handle_message, handle_other, Event,
  incoming, listen,
}
use signers.Client.Socket.Entries.{
  Absent, Elsewhere, find-Absent, remove-Absent, remove-Elsewhere, Elsewhere-remove, find-Elsewhere,
  find-remove,
}

-- The messages that were delivered to a channel.
abbrev pub answers_to : ℕ → List (ℕ × Message) → List Message
answers_to ch [] = []
answers_to ch ((c, m) ∷ answered) =
    if c == ch then m ∷ answers_to ch answered else answers_to ch answered

-- The first message with this id, if there is one.
abbrev pub first_with : Text → List Message → List Message
first_with id [] = []
first_with id (m ∷ ms) = if text_eq m.id id then m ∷ [] else first_with id ms

abbrev pub received : Message → Event
received m = record { dialed = false; written = false; read = incoming m }

pub answers_to-append :
    (ch : ℕ) (a b : List (ℕ × Message))
    → answers_to ch (a ++ b) ≡ answers_to ch a ++ answers_to ch b
answers_to-append ch [] b = refl
answers_to-append ch ((c, m) ∷ a) b = ground (arith, answers_to-append ch a b)

-- The calls and the connection are the same.
abbrev pub SameCalls : Socket → Socket → Type 0
SameCalls s t =
    (t.answered ≡ s.answered)
    × (t.pending ≡ s.pending)
    × (t.connected ≡ s.connected)
    × (t.closed ≡ s.closed)

SameCalls-if :
    (b : Bool) (s t u : Socket) → SameCalls s t → SameCalls s u → SameCalls s (if b then t else u)
SameCalls-if true s t u h k = h
SameCalls-if false s t u h k = k

handle_head-SameCalls : (o : Option Notification) (s : Socket) → SameCalls s (handle_head o s)
unfolding handle_head
handle_head-SameCalls none s = (refl, refl, refl, refl)
handle_head-SameCalls (some note) s =
    SameCalls-if (text_eq s.subscription_id []) s s _ (refl, refl, refl, refl)
      (SameCalls-if (text_eq note.subscription s.subscription_id) s _ s (by_head note.head)
        (refl, refl, refl, refl))
  where
    by_head :
        (o : Option ℕ)
        → SameCalls s
            (elim o [ none ↦ s | some number ↦ record s { heads = s.heads ++ number ∷ [] } ])
    by_head none = (refl, refl, refl, refl)
    by_head (some number) = (refl, refl, refl, refl)

-- A message that answers no call leaves the calls alone.
pub handle_other-SameCalls : (m : Message) (s : Socket) → SameCalls s (handle_other m s)
unfolding handle_other
handle_other-SameCalls m s =
    let head =
      SameCalls-if (text_eq m.method (codes "eth_subscription")) s (handle_head m.params s) s
        (handle_head-SameCalls m.params s) (refl, refl, refl, refl) in
    SameCalls-if (text_eq s.subscription_call_id []) s _ _ head
      (SameCalls-if (text_eq m.id s.subscription_call_id) s _ _ (refl, refl, refl, refl) head)

pub handle_message-other :
    (m : Message) (s : Socket) → find m.id s.pending ≡ none → handle_message m s ≡ handle_other m s
unfolding handle_message
handle_message-other m s missing = rw missing refl

pub handle_message-found :
    (m : Message) (s : Socket) (c : ℕ)
    → find m.id s.pending ≡ some c
    → handle_message m s
      ≡ record s { pending = remove m.id s.pending; answered = s.answered ++ (c, m) ∷ [] }
unfolding handle_message
handle_message-found m s c found = rw found refl

pub listen-received :
    (m : Message) (ms : List Message) (s : Socket)
    → s.connected ≡ true
    → listen (map received (m ∷ ms)) s ≡ listen (map received ms) (handle_message m s)
unfolding listen
listen-received m ms s up = rw up refl

-- No message is delivered to a channel that no pending call uses.
answers-Absent :
    (ch : ℕ) (ms : List Message) (s : Socket)
    → s.connected ≡ true
    → Absent ch s.pending
    → answers_to ch (listen (map received ms) s).answered ≡ answers_to ch s.answered
unfolding listen
answers-Absent ch [] s up absent = refl
answers-Absent ch (m ∷ ms) s up absent = elim (Option-cases (find m.id s.pending)) [
  | inl missing ↦
      let t = handle_other m s in
      let (same, pending, same_up, same_closed) = handle_other-SameCalls m s in
      rw (listen-received m ms s up) (
        rw (handle_message-other m s missing) (
          answers-Absent ch ms t (same_up ∙ up) (subst (Absent ch) (sym pending) absent)
          ∙ ap (answers_to ch) same))
  | inr (c, found) ↦
      let t : Socket = record s {
        pending = remove m.id s.pending;
        answered = s.answered ++ (c, m) ∷ [];
      } in
      let away = find-Absent ch m.id s.pending c absent found in
      rw (listen-received m ms s up) (
        rw (handle_message-found m s c found) (
          answers-Absent ch ms t up (remove-Absent ch m.id s.pending absent)
          ∙ answers_to-append ch s.answered ((c, m) ∷ [])
          ∙ rw away (append-nil _)))
]

same_channel : (ch : ℕ) → (ch == ch) ≡ true
same_channel ch = ground arith

-- A call that is pending under its id, with a channel of its own, is answered once: of the
-- messages that arrive on the connection, the first with that id is delivered to the channel, and
-- no other message is.
pub answers-first :
    (id : Text) (ch : ℕ) (ms : List Message) (s : Socket)
    → s.connected ≡ true
    → find id s.pending ≡ some ch
    → Elsewhere id ch s.pending
    → answers_to ch (listen (map received ms) s).answered
      ≡ answers_to ch s.answered ++ first_with id ms
unfolding listen
answers-first id ch [] s up mine others = sym (append-nil _)
answers-first id ch (m ∷ ms) s up mine others = elim (Bool-cases (text_eq m.id id)) [
  | inl same ↦
      let t : Socket = record s {
        pending = remove m.id s.pending;
        answered = s.answered ++ (ch, m) ∷ [];
      } in
      let is_id = text_eq-eq m.id id same in
      let found : find m.id s.pending ≡ some ch = ap (λ x. find x s.pending) is_id ∙ mine in
      let absent =
        subst (λ x. Absent ch (remove x s.pending)) (sym is_id)
          (remove-Elsewhere id ch s.pending others) in
      rw (listen-received m ms s up) (
        rw (handle_message-found m s ch found) (
          answers-Absent ch ms t up absent
          ∙ answers_to-append ch s.answered ((ch, m) ∷ [])
          ∙ rw (same_channel ch, same) refl))
  | inr differ ↦ rw differ (elim (Option-cases (find m.id s.pending)) [
    | inl missing ↦
        let t = handle_other m s in
        let (same, pending, same_up, same_closed) = handle_other-SameCalls m s in
        rw (listen-received m ms s up) (
          rw (handle_message-other m s missing) (
            answers-first id ch ms t (same_up ∙ up) (ap (find id) pending ∙ mine)
              (subst (Elsewhere id ch) (sym pending) others)
            ∙ ap (λ l. answers_to ch l ++ first_with id ms) same))
    | inr (c, found) ↦
        let t : Socket = record s {
          pending = remove m.id s.pending;
          answered = s.answered ++ (c, m) ∷ [];
        } in
        let away = find-Elsewhere id m.id ch s.pending c others differ found in
        rw (listen-received m ms s up) (
          rw (handle_message-found m s c found) (
            answers-first id ch ms t up (find-remove id m.id s.pending differ ∙ mine)
              (Elsewhere-remove id m.id ch s.pending others)
            ∙ ap (λ l. l ++ first_with id ms)
                (answers_to-append ch s.answered ((c, m) ∷ []) ∙ rw away (append-nil _))))
  ])
]
