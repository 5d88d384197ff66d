-- ===== src/Client/Quorum/Shutdown/Waits.antt =====
-- When Stop (client/quorum.go) waits: for the node, and for ever.
use signers.Base.{ℕ, ◌≡◌, refl, ap, true, false, arith}
use signers.Client.Quorum.Shutdown.{
  connecting, reading, handing, absent, live, Closing, new_closing, leave, begin_stop, Step, starts,
  finishes, goes_on, dial_fails, dials, is_connected, reads_other, reads_head, read_fails,
  hands_over, returns, is_live, by_node, Run, here, next,
}

-- The listener has lost its connection and is to dial anew.
abbrev pub dialing : Closing
dialing = record new_closing { place = connecting; conn = absent; count = 1 }

-- The listener reads the connection that it dialed after Stop had looked for one.
abbrev pub dialed_late : Closing
dialed_late = record (begin_stop dialing) { place = reading; conn = live }

only_reads :
    {s t : Closing} (step : Step s t)
    → s.place ≡ reading
    → s.conn ≡ live
    → s.count ≡ 1
    → by_node step ≡ true
only_reads (starts s at) here_ up one = absurd (cc)
only_reads (finishes s at shut) here_ up one = absurd (cc)
only_reads (goes_on s at unshut) here_ up one = absurd (cc)
only_reads (dial_fails s at none) here_ up one = absurd (cc)
only_reads (dials s at none) here_ up one = absurd (cc)
only_reads (is_connected s at some) here_ up one = absurd (cc)
only_reads (reads_other s at) here_ up one = ap is_live up
only_reads (reads_head s number at) here_ up one = ap is_live up
only_reads (read_fails s at) here_ up one = ap is_live up
only_reads (hands_over s number at received) here_ up one = absurd (cc)
only_reads (returns s stopping waiting none_left) here_ up one =
    absurd (omega (arith, one, none_left))

-- A new client comes to a state in which its listener has lost the connection and, past the check of
-- the shutdown channel, is to dial anew. When Stop is called then, it sees no connection and closes
-- none, the listener dials, and reads a connection that nobody closes: Stop has not returned, and
-- every step that is possible waits for the node to send something or to break the connection.
pub stop_waits_for_node :
    Run new_closing 5 dialing
    × Run (begin_stop dialing) 1 dialed_late
    × (dialed_late.stopped ≡ false)
    × ((t : Closing) (step : Step dialed_late t) → by_node step ≡ true)
stop_waits_for_node = (
  next
      (next
        (next (next (next here (starts _ refl)) (goes_on _ refl refl))
          (is_connected _ refl (λ e. cc)))
        (read_fails _ refl))
      (goes_on _ refl refl),
  next here (dials _ refl refl),
  refl,
  λ t step. only_reads step refl refl refl,
)

-- Once the listener has read a header that nobody receives, nothing can happen after Stop is called.
Step-stuck :
    {s t : Closing} (number : ℕ)
    → Step s t
    → s.place ≡ handing number
    → s.count ≡ 1
    → s.received ≡ false
    → ⊥
Step-stuck number (starts s at) here_ one unread = cc
Step-stuck number (finishes s at shut) here_ one unread = cc
Step-stuck number (goes_on s at unshut) here_ one unread = cc
Step-stuck number (dial_fails s at none) here_ one unread = cc
Step-stuck number (dials s at none) here_ one unread = cc
Step-stuck number (is_connected s at some) here_ one unread = cc
Step-stuck number (read_fails s at) here_ one unread = cc
Step-stuck number (reads_other s at) here_ one unread = cc
Step-stuck number (reads_head s n at) here_ one unread = cc
Step-stuck number (hands_over s n at received) here_ one unread = cc
Step-stuck number (returns s stopping waiting none_left) here_ one unread = omega arith

-- The listener of a new client reads the header of block n.
abbrev pub holding : ℕ → Closing
holding n = record new_closing { place = handing n; count = 1 }

-- A new client comes to a state in which its listener has read a header and hands it over. When the
-- receiver leaves its loop just then, as serveViaWS does on an error, and calls Stop, no step is
-- possible any more: Stop waits for the listener and the listener for a receiver, for ever.
pub stop_deadlocks :
    (n : ℕ)
    → Run new_closing 4 (holding n) × ((t : Closing) → ¬ Step (begin_stop (leave (holding n))) t)
stop_deadlocks n = (
  next
      (next (next (next here (starts _ refl)) (goes_on _ refl refl))
        (is_connected _ refl (λ e. cc)))
      (reads_head _ n refl),
  λ t step. Step-stuck n step refl refl refl,
)
