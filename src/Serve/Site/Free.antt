-- ===== src/Serve/Site/Free.antt =====
-- The windows of `signers serve` (serve/serve.go) never wait for the lock of the counters.
use signers.Base.{ℕ, zero, suc, true, false, Bool, List, [], ◌∷◌, ◌++◌, All, if◌then◌else◌}
use signers.Base.Int.{ℤ, pos, int64}
use signers.Base.Text.{Text, codes}
use signers.Base.Exec.{Result, ok, err, Outcome, returned, exited, panicked, blocked, continue}
use signers.Base.Fallible.{Try, proceed, called_result}
use signers.Redt.Types.{Header, Geth}
use signers.Redt.Node.{Node, header_by_number}
use signers.Redt.Node.Unlocks.{Ended, header_by_number-Unlocked}
use signers.Redt.Report.{Report, signers_for_header}
use signers.Redt.Report.Unlocks.{signers_for_header-Unlocked}
use signers.Redt.Stats.Counting.{IsFree}
use signers.Serve.{
  Setup, Window, Notice, Served, serve_round, after_header, next_header, send_report, write_message,
  set_watch,
}
use signers.Serve.Page.{execute_template}
use signers.Serve.Site.{
  Handler, running, ended, stuck, Site, SiteEvent, asks_index, opens, receives, start_window,
  handler_after, site_outcome, deliver, deliver_at, site_step, site_run,
}

-- The handler does not wait for the lock.
abbrev pub Moving : Handler → Type 0
Moving (stuck w) = ⊥
Moving _ = Unit

-- The lock is free, and nobody waits for it.
abbrev pub IsClear : {C : Type 0} → Site C → Type 0
IsClear s = IsFree s.node × All Moving s.handlers

module _ (g : Geth) (show_time : ℤ → Text) where
  abbrev Kept : {A : Type 0} → Outcome (Result A) × Served g.Cache → Type 0
  Kept (o, t) = Ended o × IsFree t.node

  module _ {A B : Type 0} where
    Kept-proceed :
        (o : Outcome (Result A)) (t : Served g.Cache) (f : A → Try (Served g.Cache) B)
        → Kept (o, t)
        → ((a : A) → Kept (f a t))
        → Kept (proceed o f t)
    Kept-proceed (returned (ok a)) t f h k = k a
    Kept-proceed (returned (err e)) t f h k = h
    Kept-proceed exited t f h k = h
    Kept-proceed panicked t f h k = h
    Kept-proceed blocked t f h k = absurd h.0

  Ended-called : {A : Type 0} (o : Outcome A) → Ended o → Ended (called_result o)
  Ended-called (returned a) h = h
  Ended-called exited h = h
  Ended-called panicked h = h
  Ended-called blocked h = h

  write_message-Kept :
      (written : Bool) (page : Text) (t : Served g.Cache)
      → IsFree t.node
      → Kept (write_message g show_time written page t)
  unfolding write_message
  write_message-Kept true page t free = (tt, free)
  write_message-Kept false page t free = (tt, free)

  send_report-Kept :
      (written : Bool) (answer : Report × ℕ) (t : Served g.Cache)
      → IsFree t.node
      → Kept (send_report g show_time written answer t)
  unfolding send_report
  send_report-Kept written (report, timestamp) t free =
      let u = set_watch g show_time (record { is_first = false; timestamp = timestamp }) t in
      Kept-proceed (returned (execute_template show_time (codes "table.html") report)) u
        (write_message g show_time written) (tt, free)
        (λ page. write_message-Kept written page u free)

  next_header-Kept :
      (written : Bool) (h : Header) (t : Served g.Cache)
      → IsFree t.node
      → Kept (next_header g show_time written h t)
  unfolding next_header
  next_header-Kept written h t free =
      let (o, n) = signers_for_header g h t.window.watch.timestamp t.node in
      let (over, still) = signers_for_header-Unlocked g h t.window.watch.timestamp t.node free in
      Kept-proceed (called_result o) (record t { node = n }) (send_report g show_time written)
        (Ended-called o over, still)
        (λ answer. send_report-Kept written answer (record t { node = n }) still)

  after_header-Kept :
      (written : Bool) (h : Header) (t : Served g.Cache)
      → IsFree t.node
      → Kept (after_header g show_time written h t)
  unfolding after_header
  after_header-Kept written h t free = by_first t.window.watch.is_first
    where
      by_first :
          (b : Bool)
          → Kept (
              if b
              then (
                returned (ok tt),
                set_watch g show_time (record { is_first = false; timestamp = h.time }) t,
              )
              else next_header g show_time written h t)
      by_first true = (tt, free)
      by_first false = next_header-Kept written h t free

  pub serve_round-Kept :
      (notice : Notice) (t : Served g.Cache)
      → IsFree t.node
      → Kept (serve_round g show_time notice t)
  unfolding serve_round
  serve_round-Kept notice t free =
      let (o, n) = header_by_number g (int64 (pos notice.number)) t.node in
      let (over, still) = header_by_number-Unlocked g (int64 (pos notice.number)) t.node free in
      Kept-proceed o (record t { node = n }) (after_header g show_time notice.written) (over, still)
        (λ h. after_header-Kept notice.written h (record t { node = n }) still)

  Moving-after :
      (o : Outcome (Result (Unit {0}))) (w : Window) → Ended o → Moving (handler_after o w)
  Moving-after (returned (ok u)) w h = tt
  Moving-after (returned (err e)) w h = tt
  Moving-after exited w h = tt
  Moving-after panicked w h = tt
  Moving-after blocked w h = absurd h

  -- What a delivery leaves.
  abbrev Delivered : {A : Type 0} → (A → Type 0) → Outcome (Unit {0}) × Node g × A → Type 0
  Delivered P (o, n, a) = Ended o × IsFree n × P a

  site_outcome-Ended : (o : Outcome (Result (Unit {0}))) → Ended (site_outcome o)
  site_outcome-Ended (returned r) = tt
  site_outcome-Ended exited = tt
  site_outcome-Ended panicked = tt
  site_outcome-Ended blocked = tt

  deliver-Moving :
      (notice : Notice) (h : Handler) (n : Node g)
      → IsFree n
      → Moving h
      → Delivered Moving (deliver g show_time notice h n)
  deliver-Moving notice (running w) n free moving =
      let s : Served g.Cache = record { node = n; window = w } in
      let (over, still) = serve_round-Kept notice s free in
      let (o, t) = serve_round g show_time notice s in
      (site_outcome-Ended o, still, Moving-after o t.window over)
  deliver-Moving notice (ended w) n free moving = (tt, free, tt)
  deliver-Moving notice (stuck w) n free moving = absurd moving

  deliver_at-Moving :
      (i : ℕ) (notice : Notice) (hs : List Handler) (n : Node g)
      → IsFree n
      → All Moving hs
      → Delivered (All Moving) (deliver_at g show_time i notice hs n)
  unfolding deliver_at
  deliver_at-Moving i notice [] n free moving = (tt, free, tt)
  deliver_at-Moving zero notice (h ∷ hs) n free (moving, others) =
      let (over, still, goes) = deliver-Moving notice h n free moving in
      (over, still, (goes, others))
  deliver_at-Moving (suc i) notice (h ∷ hs) n free (moving, others) =
      let (over, still, go) = deliver_at-Moving i notice hs n free others in
      (over, still, (moving, go))

  start_window-Moving : (setup : Setup) → Moving (start_window setup)
  start_window-Moving setup = by_parts setup.upgraded setup.dialed setup.subscribed
    where
      by_parts :
          (a b c : Bool)
          → Moving (
              start_window
                (record { upgraded = a; dialed = b; subscribed = c; stops = setup.stops }))
      by_parts false b c = tt
      by_parts true false c = tt
      by_parts true true false = tt
      by_parts true true true = tt

  All-snoc :
      (hs : List Handler) (h : Handler) → All Moving hs → Moving h → All Moving (hs ++ h ∷ [])
  All-snoc [] h others moving = (moving, tt)
  All-snoc (x ∷ hs) h (here, others) moving = (here, All-snoc hs h others moving)

  site_step-IsClear :
      (event : SiteEvent) (s : Site g.Cache)
      → IsClear s
      → let (o, t) = site_step g show_time event s in Ended o × IsClear t
  unfolding site_step
  site_step-IsClear asks_index s clear = (tt, clear)
  site_step-IsClear (opens setup) s (free, moving) =
      (tt, (free, All-snoc s.handlers (start_window setup) moving (start_window-Moving setup)))
  site_step-IsClear (receives i notice) s (free, moving) =
      let (over, still, goes) = deliver_at-Moving i notice s.handlers s.node free moving in
      (over, (still, goes))

  run_from :
      (o : Outcome (Unit {0})) (t : Site g.Cache) (events : List SiteEvent)
      → Ended o
      → IsClear t
      → ((u : Site g.Cache)
          → IsClear u
          → let (p, v) = site_run g show_time events u in Ended p × IsClear v)
      → let (p, v) = continue o (λ u. site_run g show_time events) t in Ended p × IsClear v
  run_from (returned u) t events over clear rest = rest t clear
  run_from exited t events over clear rest = (tt, clear)
  run_from panicked t events over clear rest = (tt, clear)
  run_from blocked t events over clear rest = absurd over

  -- The server, started with a node whose lock is free: whatever is requested, however many windows
  -- are open and in whatever order they receive headers, also when handlers fail or panic, no
  -- handler ever waits for the lock of the counters, and the lock is free after every round.
  pub site_run-IsClear :
      (events : List SiteEvent) (s : Site g.Cache)
      → IsClear s
      → let (o, t) = site_run g show_time events s in Ended o × IsClear t
  unfolding site_run
  site_run-IsClear [] s clear = (tt, clear)
  site_run-IsClear (event ∷ events) s clear =
      let (o, t) = site_step g show_time event s in
      let (over, still) = site_step-IsClear event s clear in
      run_from o t events over still (λ u. site_run-IsClear events u)
