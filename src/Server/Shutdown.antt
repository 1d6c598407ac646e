-- ===== src/Server/Shutdown.antt =====
-- The descriptors of src/networking/server.cpp over `start`, the loop and the destructor.
use my_redis.Prelude.{
  arith, ℕ, ◌≡◌, Option, none, some, List, [], ◌∷◌, Bool, true, false, ◌||◌, nat_eq, if◌then◌else◌,
  refl, subst, sym,
}
use my_redis.Dict.{Dict, find, contains}
use my_redis.PubSub.Sets.{member, insert, remove, member-insert, member-remove}
use my_redis.Server.{ClientState, new_client, Server, accept_client, process_all, disconnect_all}
use my_redis.Server.Invariant.{contains-assign}
use my_redis.Server.Lifecycle.{
  Process, Opening, Ready, close_listener, open_listener, stop, readable_clients, close_all,
  on_accept, on_ready, on_scan, Event, stopped, select_failed, timed_out, scanned, ready,
  event_loop, start, descriptors, destroy,
}
use my_redis.Server.Descriptors.{
  is_listener, IsAccounted, member-close_all, contains-disconnect_all, process_all-keeps,
}

-- A listening socket that is closed, with its member reset.
module _ (server : Server) (listener : ℕ) (running running' : Bool) (sockets : List ℕ) where
  listener_gone :
      IsAccounted (record {
        server = server;
        listen_fd = some listener;
        running = running;
        sockets = sockets;
      })
      → IsAccounted (record {
        server = server;
        listen_fd = none;
        running = running';
        sockets = remove listener sockets;
      })
  unfolding IsAccounted
  listener_gone h fd o = ground (arith, member-remove listener fd sockets, h fd)

accepted-IsAccounted : (fd : ℕ) (p : Process) → IsAccounted p → IsAccounted (on_accept (some fd) p)
unfolding on_accept IsAccounted accept_client
accepted-IsAccounted fd p h other o = ground (
  arith,
  contains-assign fd other new_client p.server.clients,
  member-insert fd other p.sockets,
  h other,
)

on_accept-IsAccounted :
    (accepted : Option ℕ) (p : Process) → IsAccounted p → IsAccounted (on_accept accepted p)
unfolding on_accept
on_accept-IsAccounted none p h = h
on_accept-IsAccounted (some fd) p h = accepted-IsAccounted fd p h

closed-IsAccounted :
    (fds : List ℕ) (server : Server) (p : Process)
    → ((fd : ℕ) → contains fd p.server.clients ≡ true → contains fd server.clients ≡ true)
    → IsAccounted p
    → IsAccounted
        (record p { server = disconnect_all fds server; sockets = close_all fds p.sockets })
unfolding IsAccounted
closed-IsAccounted fds server p keeps h fd o = ground (
  arith,
  contains-disconnect_all fd fds server,
  member-close_all fd fds p.sockets,
  keeps fd,
  h fd,
)

on_ready-IsAccounted :
    (accepted : Option ℕ) (fds : Ready) (p : Process)
    → IsAccounted p
    → IsAccounted (on_ready accepted fds p)
unfolding on_ready
on_ready-IsAccounted accepted fds p h =
    let p' = on_accept accepted p in
    let readable = readable_clients fds p'.server.clients in
    closed-IsAccounted (process_all readable p'.server).0 (process_all readable p'.server).1 p'
      (λ fd. process_all-keeps fd readable p'.server) (on_accept-IsAccounted accepted p h)

-- The members of a process, one by one.
module _ (server : Server) (running : Bool) (sockets : List ℕ) where
  abbrev process : Option ℕ → Process
  process listen_fd = record {
    server = server;
    listen_fd = listen_fd;
    running = running;
    sockets = sockets;
  }

  stop-process : (l : Option ℕ) → IsAccounted (process l) → IsAccounted (stop (process l))
  unfolding stop close_listener IsAccounted
  stop-process none h = h
  stop-process (some fd) h = listener_gone server fd running false sockets h

  stop_closed : (l : Option ℕ) → (stop (process l)).listen_fd ≡ none
  unfolding stop close_listener
  stop_closed none = refl
  stop_closed (some fd) = refl

  opened_process :
      (fd : ℕ)
      → IsAccounted (process none)
      → IsAccounted (record (process (some fd)) { sockets = insert fd sockets })
  unfolding IsAccounted
  opened_process fd h other o = ground (arith, member-insert fd other sockets, h other)

  open_process :
      (socket : Option ℕ) (bound listening : Bool)
      → IsAccounted (process none)
      → IsAccounted
          (open_listener
            (record { socket = socket; bound = bound; listening = listening })
            (process none)).1
  unfolding open_listener close_listener IsAccounted
  open_process none bound listening h = h
  open_process (some fd) true true h = opened_process fd h
  open_process (some fd) true false h =
      listener_gone server fd running running (insert fd sockets) (opened_process fd h)
  open_process (some fd) false listening h =
      listener_gone server fd running running (insert fd sockets) (opened_process fd h)

stop-IsAccounted : (p : Process) → IsAccounted p → IsAccounted (stop p)
stop-IsAccounted p h = stop-process p.server p.running p.sockets p.listen_fd h

either :
    (b : Bool) (p q : Process) → IsAccounted p → IsAccounted q → IsAccounted (if b then p else q)
either true p q h k = h
either false p q h k = k

on_scan-IsAccounted : (now : ℕ) (p : Process) → IsAccounted p → IsAccounted (on_scan now p)
unfolding on_scan IsAccounted
on_scan-IsAccounted now p h = h

event_loop-IsAccounted :
    (events : List Event) (p : Process) → IsAccounted p → IsAccounted (event_loop events p)
unfolding event_loop
event_loop-IsAccounted [] p h = h
event_loop-IsAccounted (stopped ∷ events) p h =
    either p.running _ p (event_loop-IsAccounted events (stop p) (stop-IsAccounted p h)) h
event_loop-IsAccounted (select_failed ∷ events) p h = h
event_loop-IsAccounted (timed_out ∷ events) p h =
    either p.running _ p (event_loop-IsAccounted events p h) h
event_loop-IsAccounted (scanned now ∷ events) p h =
    either p.running _ p
      (event_loop-IsAccounted events (on_scan now p) (on_scan-IsAccounted now p h)) h
event_loop-IsAccounted (ready accepted fds ∷ events) p h =
    either p.running _ p
      (event_loop-IsAccounted events (on_ready accepted fds p)
        (on_ready-IsAccounted accepted fds p h))
      h

open_listener-IsAccounted :
    (o : Opening) (p : Process)
    → p.listen_fd ≡ none
    → IsAccounted p
    → IsAccounted (open_listener o p).1
open_listener-IsAccounted o p e h =
    subst
      (λ l.
        IsAccounted (process p.server p.running p.sockets l)
        → IsAccounted (open_listener o (process p.server p.running p.sockets l)).1)
      (sym e) (open_process p.server p.running p.sockets o.socket o.bound o.listening) h

start-IsAccounted :
    (o : Opening) (events : List Event) (p : Process)
    → p.listen_fd ≡ none
    → IsAccounted p
    → IsAccounted (start o events p)
unfolding start
start-IsAccounted o events p e h =
    either (open_listener o p).0 _ _
      (event_loop-IsAccounted events (open_listener o p).1 (open_listener-IsAccounted o p e h))
      (open_listener-IsAccounted o p e h)

contains-descriptors :
    (fd : ℕ) (clients : Dict ℕ ClientState) → contains fd clients ≡ member fd (descriptors clients)
unfolding descriptors find member
contains-descriptors fd [] = refl
contains-descriptors fd ((other, client) ∷ clients) =
    ground (arith, contains-descriptors fd clients)

destroyed :
    (p : Process) (fd : ℕ)
    → IsAccounted p
    → p.listen_fd ≡ none
    → member fd (close_all (descriptors p.server.clients) p.sockets) ≡ false
unfolding IsAccounted
destroyed p fd h e =
    let named =
      subst
        (λ l.
          member fd p.sockets ≡ true → (contains fd p.server.clients || is_listener fd l) ≡ true)
        e (h fd) in
    ground (
      arith,
      member-close_all fd (descriptors p.server.clients) p.sockets,
      contains-descriptors fd p.server.clients,
      named,
    )

none-IsAccounted : (p : Process) → p.sockets ≡ [] → IsAccounted p
unfolding IsAccounted member
none-IsAccounted p e fd o = absurd (ground (arith, rw e at o))

-- No descriptor is left open: whatever the calls of the system return, whatever clients connect,
-- send and hang up, and however the loop ends, the destructor after `start` has closed each socket
-- that the server had opened, where it had none open before and was not listening.
pub destroy-start :
    (o : Opening) (events : List Event) (p : Process) (fd : ℕ)
    → p.listen_fd ≡ none
    → p.sockets ≡ []
    → member fd (destroy (start o events p)).sockets ≡ false
unfolding destroy
destroy-start o events p fd e none_open =
    destroyed (stop (start o events p)) fd
      (stop-IsAccounted (start o events p)
        (start-IsAccounted o events p e (none-IsAccounted p none_open)))
      (stop_closed (start o events p).server (start o events p).running (start o events p).sockets
        (start o events p).listen_fd)
