-- ===== src/Client/Quorum/Shutdown/Serving.antt =====
-- The listener of client/quorum.go while Stop was not called.
use signers.Base.{ℕ, ◌+◌, ◌-◌, ◌≡◌, ◌≢◌, refl, ap, ◌∙◌, true, false, arith}
use signers.Client.Quorum.Shutdown.{
  Place, not_started, checking, connecting, reading, handing, finished, Conn, absent, live, Closing,
  new_closing, Step, starts, finishes, goes_on, dial_fails, dials, is_connected, reads_other,
  reads_head, read_fails, hands_over, returns, Run, here, next,
}

-- The goroutines that the WaitGroup counts in this place.
abbrev pub running : Place → ℕ
running not_started = 0
running checking = 1
running connecting = 1
running reading = 1
running (handing number) = 1
running finished = 0

-- Before Stop is called: the WaitGroup counts the listener between its Add and its Done, and a
-- listener that reads has a connection.
pub record Serving (s : Closing) : Type 0 where
  pub counted : s.count ≡ running s.place
  pub holds : (s.place ≡ reading) → s.conn ≢ absent
  pub received : s.received ≡ true
  pub stopping : s.stopping ≡ false
  pub stopped : s.stopped ≡ false

-- A step to another place, where Stop was not called.
goes :
    (s : Closing) (q : Place) (c : Conn) (count : ℕ)
    → count ≡ running q
    → ((q ≡ reading) → c ≢ absent)
    → Serving s
    → Serving (record s { place = q; conn = c; count = count })
goes s q c count counted holds v = record {
  counted = counted;
  holds = holds;
  received = v.received;
  stopping = v.stopping;
  stopped = v.stopped;
}

Step-Serving : {s t : Closing} → Step s t → Serving s → Serving t
Step-Serving (starts s at) v =
    goes s checking s.conn (s.count + 1) (omega (arith, v.counted, ap running at)) (λ e. cc) v
Step-Serving (finishes s at shut) v =
    goes s finished s.conn (s.count - 1) (omega (arith, v.counted, ap running at)) (λ e. cc) v
Step-Serving (goes_on s at unshut) v =
    goes s connecting s.conn s.count (v.counted ∙ ap running at) (λ e. cc) v
Step-Serving (dial_fails s at none) v =
    goes s checking s.conn s.count (v.counted ∙ ap running at) (λ e. cc) v
Step-Serving (dials s at none) v =
    goes s reading live s.count (v.counted ∙ ap running at) (λ e. λ f. cc) v
Step-Serving (is_connected s at some) v =
    goes s reading s.conn s.count (v.counted ∙ ap running at) (λ e. some) v
Step-Serving (reads_other s at) v =
    goes s checking s.conn s.count (v.counted ∙ ap running at) (λ e. cc) v
Step-Serving (reads_head s number at) v =
    goes s (handing number) s.conn s.count (v.counted ∙ ap running at) (λ e. cc) v
Step-Serving (read_fails s at) v =
    goes s checking absent s.count (v.counted ∙ ap running at) (λ e. cc) v
Step-Serving (hands_over s number at received) v =
    goes s checking s.conn s.count (v.counted ∙ ap running at) (λ e. cc) v
Step-Serving (returns s stopping waiting none_left) v = absurd (let no = v.stopping in cc)

pub new-Serving : Serving new_closing
new-Serving = record {
  counted = refl;
  holds = λ e. cc;
  received = refl;
  stopping = refl;
  stopped = refl;
}

pub Run-Serving : {s t : Closing} {k : ℕ} → Run s k t → Serving s → Serving t
Run-Serving here v = v
Run-Serving (next r step) v = Step-Serving step (Run-Serving r v)
