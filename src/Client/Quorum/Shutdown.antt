-- ===== src/Client/Quorum/Shutdown.antt =====
-- client/quorum.go: Stop, which waits for the goroutine of the listener (client/ws.go).
pub mod Serving
pub mod Returns
pub mod Waits
use signers.Base.{ℕ, ◌+◌, ◌-◌, ◌≡◌, ◌≢◌, Bool, true, false}

-- Where the goroutine of NewQuorumClient is: before its Add(1), at the check of the shutdown
-- channel, past it and before it has a connection, reading a message, handing the header of this
-- number over, or after its Done.
pub data Place : Type 0 where
  not_started : Place
  checking : Place
  connecting : Place
  reading : Place
  handing : ℕ → Place
  finished : Place

-- The field `conn`: nil, an open connection, or one that Stop has closed.
pub data Conn : Type 0 where
  absent : Conn
  live : Conn
  closed : Conn

-- `count` is the WaitGroup, `shut` is whether shutdownChan is closed, `received` whether somebody
-- still receives the headers, and `stopping` and `stopped` are the call of Stop.
pub record Closing : Type 0 where
  pub place : Place
  pub conn : Conn
  pub count : ℕ
  pub shut : Bool
  pub received : Bool
  pub stopping : Bool
  pub stopped : Bool

-- A new client, which has dialed, and whose headers somebody receives.
abbrev pub new_closing : Closing
new_closing = record {
  place = not_started;
  conn = live;
  count = 0;
  shut = false;
  received = true;
  stopping = false;
  stopped = false;
}

-- The receiver of the headers leaves its loop.
abbrev pub leave : Closing → Closing
leave s = record s { received = false }

-- conn.Close(), if conn is not nil.
abbrev pub close_conn : Conn → Conn
close_conn absent = absent
close_conn live = closed
close_conn closed = closed

-- Stop until it waits: the channel is closed, and the connection that it sees.
abbrev pub begin_stop : Closing → Closing
begin_stop s = record s { shut = true; conn = close_conn s.conn; stopping = true }

-- The steps of the listener and the end of Stop, in any order. The channel of the headers has no
-- buffer. What is read is a header of the subscription or something else. A read of a connection
-- that is open waits for the node; one of a connection that Stop has closed gives what was received
-- before, and then an error. After an error of a read the connection is reset. A dial that fails is
-- tried again, as is one after which the subscription fails.
pub data Step : Closing → Closing → Type 0 where
  starts :
      (s : Closing)
      → s.place ≡ not_started
      → Step s (record s { place = checking; count = s.count + 1 })
  finishes :
      (s : Closing)
      → s.place ≡ checking
      → s.shut ≡ true
      → Step s (record s { place = finished; count = s.count - 1 })
  goes_on :
      (s : Closing) → s.place ≡ checking → s.shut ≡ false → Step s (record s { place = connecting })
  dial_fails :
      (s : Closing)
      → s.place ≡ connecting
      → s.conn ≡ absent
      → Step s (record s { place = checking })
  dials :
      (s : Closing)
      → s.place ≡ connecting
      → s.conn ≡ absent
      → Step s (record s { place = reading; conn = live })
  is_connected :
      (s : Closing) → s.place ≡ connecting → s.conn ≢ absent → Step s (record s { place = reading })
  reads_other : (s : Closing) → s.place ≡ reading → Step s (record s { place = checking })
  reads_head :
      (s : Closing) (number : ℕ) → s.place ≡ reading → Step s (record s { place = handing number })
  read_fails :
      (s : Closing) → s.place ≡ reading → Step s (record s { place = checking; conn = absent })
  hands_over :
      (s : Closing) (number : ℕ)
      → s.place ≡ handing number
      → s.received ≡ true
      → Step s (record s { place = checking })
  returns :
      (s : Closing)
      → s.stopping ≡ true
      → s.stopped ≡ false
      → s.count ≡ 0
      → Step s (record s { stopped = true })

abbrev is_live : Conn → Bool
is_live absent = false
is_live live = true
is_live closed = false

-- The read of an open connection: it needs the node, which sends a message or breaks the connection.
abbrev pub by_node : {s t : Closing} → Step s t → Bool
by_node (starts s at) = false
by_node (finishes s at shut) = false
by_node (goes_on s at unshut) = false
by_node (dial_fails s at none) = false
by_node (dials s at none) = false
by_node (is_connected s at some) = false
by_node (reads_other s at) = is_live s.conn
by_node (reads_head s number at) = is_live s.conn
by_node (read_fails s at) = is_live s.conn
by_node (hands_over s number at received) = false
by_node (returns s stopping waiting none_left) = false

-- A run of so many steps.
pub data Run (s : Closing) : ℕ → Closing → Type 0 where
  here : Run s 0 s
  next : {k : ℕ} {t u : Closing} → Run s k t → Step t u → Run s (k + 1) u
