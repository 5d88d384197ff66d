-- ===== src/Client/Socket/Pending.antt =====
-- What messages leave of the pending calls (client/ws.go).
use signers.Base.{
  ℕ, ◌≡◌, refl, ap, ◌∙◌, true, false, List, [], ◌∷◌, ◌++◌, map, Option, none, some, arith, contains,
  count, ◌==◌, Bool-cases, Option-cases, inl, inr,
}
use mathlib.Core.Path.{subst}
use signers.Base.Text.{Text, text_eq, text_eq-eq}
use signers.Client.Socket.{
  Message, Socket, Event, find, remove, handle_message, listen, listen_round,
}
use signers.Client.Socket.Calls.{
  first_with, received, listen-received, handle_other-SameCalls, handle_message-other,
  handle_message-found,
}
use signers.Client.Socket.Entries.{Absent, find-remove}
use signers.Client.Socket.Once.{channels}

pub listen-append :
    (es fs : List Event) (s : Socket) → listen (es ++ fs) s ≡ listen fs (listen es s)
unfolding listen
listen-append [] fs s = refl
listen-append (e ∷ es) fs s = listen-append es fs (listen_round e s)

-- Messages alone keep the connection and close nothing.
handle_message-open :
    (m : Message) (s : Socket)
    → ((handle_message m s).connected ≡ s.connected) × ((handle_message m s).closed ≡ s.closed)
handle_message-open m s = elim (Option-cases (find m.id s.pending)) [
  | inl missing ↦
      let (answered, pending, up, closed) = handle_other-SameCalls m s in
      rw (handle_message-other m s missing) (up, closed)
  | inr (c, found) ↦ rw (handle_message-found m s c found) (refl, refl)
]

pub listen-open :
    (ms : List Message) (s : Socket)
    → s.connected ≡ true
    → ((listen (map received ms) s).connected ≡ true)
      × ((listen (map received ms) s).closed ≡ s.closed)
unfolding listen
listen-open [] s up = (up, refl)
listen-open (m ∷ ms) s up =
    let (up', closed) = handle_message-open m s in
    let (still, closed') = listen-open ms (handle_message m s) (up' ∙ up) in
    rw (listen-received m ms s up) (still, closed' ∙ closed)

-- A message with another id leaves the call as it is.
find-other :
    (id : Text) (ch : ℕ) (m : Message) (s : Socket)
    → text_eq m.id id ≡ false
    → find id s.pending ≡ some ch
    → find id (handle_message m s).pending ≡ some ch
find-other id ch m s differ mine = elim (Option-cases (find m.id s.pending)) [
  | inl missing ↦
      let (answered, pending, up, closed) = handle_other-SameCalls m s in
      rw (handle_message-other m s missing) (ap (find id) pending ∙ mine)
  | inr (c, found) ↦
      rw (handle_message-found m s c found) (find-remove id m.id s.pending differ ∙ mine)
]

-- What is removed is not found, and what is not found stays so.
find-removed : (id : Text) (ps : List (Text × ℕ)) → find id (remove id ps) ≡ none
unfolding find remove
find-removed id [] = refl
find-removed id ((key, c) ∷ ps) = elim (Bool-cases (text_eq key id)) [
  | inl same ↦ rw same (find-removed id ps)
  | inr differ ↦ rw differ (rw differ (find-removed id ps))
]

find-remove-none :
    (id j : Text) (ps : List (Text × ℕ)) → find id ps ≡ none → find id (remove j ps) ≡ none
find-remove-none id j ps missing = elim (Bool-cases (text_eq j id)) [
  | inl same ↦ subst (λ x. find x (remove j ps) ≡ none) (text_eq-eq j id same) (find-removed j ps)
  | inr differ ↦ find-remove id j ps differ ∙ missing
]

handle_message-none :
    (id : Text) (m : Message) (s : Socket)
    → find id s.pending ≡ none
    → find id (handle_message m s).pending ≡ none
handle_message-none id m s missing = elim (Option-cases (find m.id s.pending)) [
  | inl nothing ↦
      let (answered, pending, up, closed) = handle_other-SameCalls m s in
      rw (handle_message-other m s nothing) (ap (find id) pending ∙ missing)
  | inr (c, found) ↦
      rw (handle_message-found m s c found) (find-remove-none id m.id s.pending missing)
]

listen-none :
    (id : Text) (ms : List Message) (s : Socket)
    → s.connected ≡ true
    → find id s.pending ≡ none
    → find id (listen (map received ms) s).pending ≡ none
unfolding listen
listen-none id [] s up missing = missing
listen-none id (m ∷ ms) s up missing =
    let (up', closed) = handle_message-open m s in
    rw (listen-received m ms s up)
      (listen-none id ms (handle_message m s) (up' ∙ up) (handle_message-none id m s missing))

-- The entry of a call after its answers.
abbrev pub left : ℕ → List Message → Option ℕ
left ch [] = some ch
left ch (m ∷ ms) = none

find-answered :
    (id : Text) (ch : ℕ) (m : Message) (s : Socket)
    → text_eq m.id id ≡ true
    → find id s.pending ≡ some ch
    → find id (handle_message m s).pending ≡ none
find-answered id ch m s same mine =
    let is_id = text_eq-eq m.id id same in
    let found : find m.id s.pending ≡ some ch = ap (λ x. find x s.pending) is_id ∙ mine in
    rw (handle_message-found m s ch found)
      (subst (λ x. find x (remove m.id s.pending) ≡ none) is_id (find-removed m.id s.pending))

-- A call stays pending until its answer arrives.
pub listen-left :
    (id : Text) (ch : ℕ) (ms : List Message) (s : Socket)
    → s.connected ≡ true
    → find id s.pending ≡ some ch
    → find id (listen (map received ms) s).pending ≡ left ch (first_with id ms)
unfolding listen
listen-left id ch [] s up mine = mine
listen-left id ch (m ∷ ms) s up mine =
    let (up', closed) = handle_message-open m s in
    elim (Bool-cases (text_eq m.id id)) [
      | inl same ↦ rw same (
          rw (listen-received m ms s up)
            (listen-none id ms (handle_message m s) (up' ∙ up) (find-answered id ch m s same mine)))
      | inr differ ↦ rw differ (
          rw (listen-received m ms s up) (
            listen-left id ch ms (handle_message m s) (up' ∙ up)
              (find-other id ch m s differ mine)))
    ]

-- The channel of a pending call is closed with the connection.
pub contains-channels :
    (id : Text) (ch : ℕ) (ps : List (Text × ℕ))
    → find id ps ≡ some ch
    → contains ch (channels ps) ≡ true
unfolding find contains
contains-channels id ch [] found = cc
contains-channels id ch ((key, c) ∷ ps) found = ground (arith, contains-channels id ch ps)

pub contains-append : (a : ℕ) (xs ys : List ℕ) → contains a ys ≡ true → contains a (xs ++ ys) ≡ true
unfolding contains
contains-append a [] ys h = h
contains-append a (x ∷ xs) ys h = ground (arith, contains-append a xs ys h)

pub count-contains : (a : ℕ) (xs : List ℕ) → count a xs ≡ 0 → contains a xs ≡ false
unfolding count contains
count-contains a [] h = refl
count-contains a (x ∷ xs) h = ground (arith, count-contains a xs)

pub count-Absent : (ch : ℕ) (ps : List (Text × ℕ)) → count ch (channels ps) ≡ 0 → Absent ch ps
unfolding count
count-Absent ch [] h = tt
count-Absent ch ((key, c) ∷ ps) h = elim (Bool-cases (c == ch)) [
  | inl same ↦ absurd (ground arith)
  | inr differ ↦ (differ, count-Absent ch ps (ground arith))
]
