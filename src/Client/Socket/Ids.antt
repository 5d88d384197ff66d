-- ===== src/Client/Socket/Ids.antt =====
-- The ids of client/ws.go: a new call has an id that no pending call has.
use signers.Base.{
  ℕ, ◌+◌, ◌%◌, ◌^◌, ◌≤◌, ◌<◌, ◌≡◌, refl, sym, ◌∙◌, inl, inr, true, List, [], ◌∷◌, ◌++◌, map, none,
  some, arith, All, Bool-cases,
}
use signers.Base.Text.{Text, decimal, text_eq, text_eq-eq, text_eq_refl}
use signers.Base.Decimal.{decimal-injective}
use signers.Base.Exec.{ok}
use signers.Client.Socket.{Message, encoded, Socket, find, remove, send_rpc_msg, listen}
use signers.Client.Socket.Calls.{answers_to, first_with, received, answers-first}
use signers.Client.Socket.Entries.{Absent, Elsewhere, remove-Absent}

-- The key of a pending call is the print of a number that was given out.
abbrev pub Issued : ℕ → Text × ℕ → Type 0
Issued k e = (n : ℕ) × (n ≤ k) × (e.0 ≡ decimal n)

abbrev pub WellFormed : Socket → Type 0
WellFormed s = All (Issued s.id_counter) s.pending

Issued-later : (k l : ℕ) (ps : List (Text × ℕ)) → k ≤ l → All (Issued k) ps → All (Issued l) ps
Issued-later k l [] h issued = tt
Issued-later k l (e ∷ ps) h ((n, small, same), issued) =
    ((n, omega arith, same), Issued-later k l ps h issued)

remove-Issued :
    (k : ℕ) (id : Text) (ps : List (Text × ℕ)) → All (Issued k) ps → All (Issued k) (remove id ps)
unfolding remove
remove-Issued k id [] issued = tt
remove-Issued k id ((key, ch) ∷ ps) issued = elim (Bool-cases (text_eq key id)) [
  | inl same ↦ rw same (remove-Issued k id ps issued.1)
  | inr differ ↦ rw differ (issued.0, remove-Issued k id ps issued.1)
]

find-fresh :
    (k : ℕ) (ps : List (Text × ℕ))
    → k + 1 < 2 ^ 32
    → All (Issued k) ps
    → find (decimal (k + 1)) ps ≡ none
unfolding find
find-fresh k [] low issued = refl
find-fresh k ((key, ch) ∷ ps) low ((n, small, same), issued) =
    elim (Bool-cases (text_eq key (decimal (k + 1)))) [
      | inl taken ↦
          let equal =
            decimal-injective n (k + 1) (omega arith) (omega arith)
              (sym same ∙ text_eq-eq key (decimal (k + 1)) taken) in
          absurd (omega arith)
      | inr differ ↦ rw differ (find-fresh k ps low issued)
    ]

Absent-Elsewhere : (id : Text) (ch : ℕ) (ps : List (Text × ℕ)) → Absent ch ps → Elsewhere id ch ps
Absent-Elsewhere id ch [] absent = tt
Absent-Elsewhere id ch (e ∷ ps) absent = (inr absent.0, Absent-Elsewhere id ch ps absent.1)

pub no_wrap : (k : ℕ) → k + 1 < 2 ^ 32 → (k + 1) % 2 ^ 32 ≡ k + 1
no_wrap k low = omega arith

module _ (s : Socket) (ch : ℕ) (method params : Text) where
  abbrev pub call_id : Text
  call_id = decimal (s.id_counter + 1)

  -- The state after a call that was written.
  abbrev pub called : Socket
  called = record s {
    id_counter = s.id_counter + 1;
    pending = (call_id, ch) ∷ remove call_id s.pending;
    sent = s.sent ++ (record { id = call_id; method = method; params = params }) ∷ [];
  }

  pub send_rpc_msg-eq :
      s.connected ≡ true
      → s.id_counter + 1 < 2 ^ 32
      → send_rpc_msg true ch method (encoded params) s ≡ (ok tt, called)
  unfolding send_rpc_msg
  send_rpc_msg-eq up low = rw (up, no_wrap s.id_counter low) refl

  pub found_called : find call_id called.pending ≡ some ch
  unfolding find
  found_called = rw (text_eq_refl call_id) refl

  -- On an open connection, while fewer than 2^32 - 1 ids were given out, a call with a channel that
  -- no pending call uses is written with an id that no pending call has. Of the messages that
  -- arrive afterwards on the connection, its channel gets exactly one, the first with that id, and
  -- none if there is none.
  pub send_rpc_msg-answers :
      (ms : List Message)
      → s.connected ≡ true
      → s.id_counter + 1 < 2 ^ 32
      → WellFormed s
      → Absent ch s.pending
      → let (r, t) = send_rpc_msg true ch method (encoded params) s in
        (r ≡ ok tt)
        × (find call_id s.pending ≡ none)
        × WellFormed t
        × (answers_to ch (listen (map received ms) t).answered
            ≡ answers_to ch s.answered ++ first_with call_id ms)
  send_rpc_msg-answers ms up low issued absent = rw (send_rpc_msg-eq up low) (
    refl,
    find-fresh s.id_counter s.pending low issued,
    (
      (s.id_counter + 1, omega arith, refl),
      remove-Issued (s.id_counter + 1) call_id s.pending
          (Issued-later s.id_counter (s.id_counter + 1) s.pending (omega arith) issued),
    ),
    answers-first call_id ch ms called up found_called (
      inl (text_eq_refl call_id),
      Absent-Elsewhere call_id ch (remove call_id s.pending)
          (remove-Absent ch call_id s.pending absent),
    ),
  )
