-- ===== src/Server/Running.antt =====
-- The loop of `Server::start` in src/networking/server.cpp against the rounds of the server.
use my_redis.Prelude.{
  ℕ, ◌≡◌, Option, none, some, List, [], ◌∷◌, Bool, true, false, if◌then◌else◌, refl, subst, sym,
}
use my_redis.Server.{Server, event_round}
use my_redis.Server.Invariant.{round, scan, Reach, start, later}
use my_redis.Server.Lifecycle
use my_redis.Server.Lifecycle.{
  Process, Opening, Ready, close_listener, open_listener, stop, readable_clients, on_accept,
  on_ready, on_scan, Event, stopped, select_failed, timed_out, scanned, ready, event_loop, destroy,
}

on_ready-round :
    (accepted : Option ℕ) (fds : Ready) (p : Process)
    → (on_ready accepted fds p).server
      ≡ event_round accepted (readable_clients fds (on_accept accepted p).server.clients) p.server
unfolding on_ready event_round on_accept
on_ready-round none fds p = refl
on_ready-round (some fd) fds p = refl

stop-server : (p : Process) → (stop p).server ≡ p.server
unfolding stop close_listener
stop-server p = stopped_at p.listen_fd
  where
    stopped_at : (l : Option ℕ) → (stop (record p { listen_fd = l })).server ≡ p.server
    stopped_at none = refl
    stopped_at (some fd) = refl

open_listener-server : (o : Opening) (p : Process) → (open_listener o p).1.server ≡ p.server
unfolding open_listener close_listener
open_listener-server o p = opened o.socket o.bound o.listening
  where
    opened :
        (socket : Option ℕ) (bound listening : Bool)
        → (open_listener
            (record { socket = socket; bound = bound; listening = listening })
            p).1.server
          ≡ p.server
    opened none bound listening = refl
    opened (some fd) true true = refl
    opened (some fd) true false = refl
    opened (some fd) false listening = refl

module _ (s : Server) where
  either :
      (b : Bool) (p q : Process)
      → Reach s p.server
      → Reach s q.server
      → Reach s (if b then p else q).server
  either true p q g h = g
  either false p q g h = h

  scanned-Reach : (now : ℕ) (p : Process) → Reach s p.server → Reach s (on_scan now p).server
  unfolding on_scan
  scanned-Reach now p r = later r (scan now)

  event_loop-Reach :
      (events : List Event) (p : Process) → Reach s p.server → Reach s (event_loop events p).server
  unfolding event_loop
  event_loop-Reach [] p r = r
  event_loop-Reach (stopped ∷ events) p r =
      either p.running _ p
        (event_loop-Reach events (stop p) (subst (Reach s) (sym (stop-server p)) r)) r
  event_loop-Reach (select_failed ∷ events) p r = r
  event_loop-Reach (timed_out ∷ events) p r = either p.running _ p (event_loop-Reach events p r) r
  event_loop-Reach (scanned now ∷ events) p r =
      either p.running _ p (event_loop-Reach events (on_scan now p) (scanned-Reach now p r)) r
  event_loop-Reach (ready accepted fds ∷ events) p r =
      either p.running _ p
        (event_loop-Reach events (on_ready accepted fds p)
          (subst (Reach s) (sym (on_ready-round accepted fds p)) (later r (round accepted _))))
        r

-- Whatever happens to a server that is started and destroyed is rounds of the event loop and scans.
pub start-Reach :
    (o : Opening) (events : List Event) (p : Process)
    → Reach p.server (destroy (Lifecycle.start o events p)).server
unfolding Lifecycle.start destroy
start-Reach o events p = subst (Reach p.server) (sym (stop-server (Lifecycle.start o events p))) (
    either p.server (open_listener o p).0 _ _
      (event_loop-Reach p.server events (open_listener o p).1 opened) opened)
  where
    opened : Reach p.server (open_listener o p).1.server
    opened = subst (Reach p.server) (sym (open_listener-server o p)) start
