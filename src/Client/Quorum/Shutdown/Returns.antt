-- ===== src/Client/Quorum/Shutdown/Returns.antt =====
-- When Stop (client/quorum.go) returns.
use signers.Base.{ℕ, ◌+◌, ◌<◌, ◌≡◌, ◌≢◌, Bool, true, false}
use signers.Client.Quorum.Shutdown.{
  Place, not_started, checking, connecting, reading, handing, finished, Conn, absent, closed,
  Closing,
}
use signers.Client.Quorum.Shutdown.Serving.{running, Serving}

-- The steps that are left until the end, at most.
abbrev place_rank : Place → ℕ
place_rank not_started = 2
place_rank checking = 1
place_rank connecting = 4
place_rank reading = 3
place_rank (handing number) = 2
place_rank finished = 0

abbrev stop_rank : Bool → ℕ
stop_rank true = 0
stop_rank false = 1

abbrev rank : Closing → ℕ
rank s = place_rank s.place + stop_rank s.stopped

-- A listener that has a connection, or is to read one, has the one that Stop has closed.
abbrev Shuts : Place → Conn → Type 0
Shuts connecting c = c ≡ closed
Shuts reading c = c ≡ closed
Shuts _ c = Unit

-- Stop was called, somebody receives the headers, and no connection will be dialed.
record Draining (s : Closing) : Type 0 where
  counted : s.count ≡ running s.place
  shuts : Shuts s.place s.conn
  shut : s.shut ≡ true
  received : s.received ≡ true
  stopping : s.stopping ≡ true

abbrev Falls : Closing → Closing → Type 0
Falls s t = Draining t × (rank t < rank s)

-- The listener is not between its check of the shutdown channel and a dial.
abbrev pub NotDialing : Closing → Type 0
NotDialing s = (s.place ≡ connecting) → s.conn ≢ absent
