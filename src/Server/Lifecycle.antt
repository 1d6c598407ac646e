-- ===== src/Server/Lifecycle.antt =====
-- The life of the server of src/networking/server.cpp: `start`, the loop around `select`, `stop` and
-- the destructor, with the descriptors that the process has open. What the calls of the system
-- return is a parameter; a signal is handled while the loop waits.
use my_redis.Prelude.{
  ℕ, Option, none, some, List, [], ◌∷◌, Bool, true, false, if◌then◌else◌, nat_eq,
}
use my_redis.Dict.{Dict}
use my_redis.Database.{expiry_scan}
use my_redis.PubSub.Sets.{insert, remove}
use my_redis.Server.{
  ClientState, Surroundings, Incoming, Server, accept_client, process_all, disconnect_all,
}

-- `listen_fd = none` is `INVALID_SOCKET_VAL`; `sockets` are the open descriptors.
pub record Process : Type 0 where
  pub server : Server
  pub listen_fd : Option ℕ
  pub running : Bool
  pub sockets : List ℕ

-- What `socket`, `bind` and `listen` return.
pub record Opening : Type 0 where
  pub socket : Option ℕ
  pub bound : Bool
  pub listening : Bool

-- `platform::close_socket(listen_fd_)`, and `INVALID_SOCKET_VAL` behind it
unfoldable pub close_listener : ℕ → Process → Process
close_listener fd p = record p { listen_fd = none; sockets = remove fd p.sockets }

-- `Server::start` up to its loop, and whether it gets there
unfoldable pub open_listener : Opening → Process → Bool × Process
unfolding close_listener
open_listener o p = elim o.socket [
  | none ↦ (false, record p { listen_fd = none })
  | some fd ↦
      let opened : Process = record p { listen_fd = some fd; sockets = insert fd p.sockets } in
      if o.bound
      then if o.listening
        then (true, record opened { running = true })
        else (false, close_listener fd opened)
      else (false, close_listener fd opened)
]

unfoldable pub stop : Process → Process
unfolding close_listener
stop p = elim p.listen_fd [
  | none ↦ record p { running = false }
  | some fd ↦ close_listener fd (record p { running = false })
]

-- What `FD_ISSET` tells of a client, with what its read yields then.
abbrev pub Ready : Type 0
Ready = ℕ → Option (Surroundings × Incoming)

-- `for (auto& [fd, state] : clients_) if (FD_ISSET(fd, &read_fds))`
unfoldable pub readable_clients : Ready → Dict ℕ ClientState → List (ℕ × Surroundings × Incoming)
readable_clients ready [] = []
readable_clients ready ((fd, client) ∷ clients) =
    let rest = readable_clients ready clients in
    elim (ready fd) [ none ↦ rest | some (w, incoming) ↦ (fd, w, incoming) ∷ rest ]

unfoldable pub close_all : List ℕ → List ℕ → List ℕ
close_all [] sockets = sockets
close_all (fd ∷ fds) sockets = close_all fds (remove fd sockets)

unfoldable pub on_accept : Option ℕ → Process → Process
unfolding accept_client
on_accept none p = p
on_accept (some fd) p = record p {
  server = accept_client fd p.server;
  sockets = insert fd p.sockets;
}

-- The part of the loop behind a `select` that reports a descriptor.
unfoldable pub on_ready : Option ℕ → Ready → Process → Process
unfolding on_accept readable_clients close_all process_all disconnect_all
on_ready accepted ready p =
    let p' = on_accept accepted p in
    let (to_disconnect, after) = process_all (readable_clients ready p'.server.clients) p'.server in
    record p' {
      server = disconnect_all to_disconnect after;
      sockets = close_all to_disconnect p'.sockets;
    }

-- A round of the expiry thread, which runs beside the loop on the same database.
unfoldable pub on_scan : ℕ → Process → Process
unfolding expiry_scan
on_scan now p = record p {
  server = record p.server {
    shared = record p.server.shared { db = expiry_scan now p.server.shared.db };
  };
}

-- What comes next: a signal, or a `select` that fails, times out or reports descriptors, or a round
-- of the expiry thread.
pub data Event : Type 0 where
  stopped select_failed timed_out : Event
  scanned : ℕ → Event
  ready : Option ℕ → Ready → Event

-- `while (running_)`, over the events to come
unfoldable pub event_loop : List Event → Process → Process
unfolding on_ready on_scan stop
event_loop [] p = p
event_loop (stopped ∷ events) p =
    let rest = event_loop events (stop p) in if p.running then rest else p
event_loop (select_failed ∷ events) p = p
event_loop (timed_out ∷ events) p = let rest = event_loop events p in if p.running then rest else p
event_loop (scanned now ∷ events) p =
    let rest = event_loop events (on_scan now p) in if p.running then rest else p
event_loop (ready accepted fds ∷ events) p =
    let rest = event_loop events (on_ready accepted fds p) in if p.running then rest else p

unfoldable pub start : Opening → List Event → Process → Process
unfolding open_listener event_loop
start o events p =
    let (listens, opened) = open_listener o p in
    let served = event_loop events opened in if listens then served else opened

unfoldable pub descriptors : Dict ℕ ClientState → List ℕ
descriptors [] = []
descriptors ((fd, client) ∷ clients) = let rest = descriptors clients in fd ∷ rest

-- The destructor
unfoldable pub destroy : Process → Process
unfolding stop close_all descriptors
destroy p =
    let p' = stop p in record p' { sockets = close_all (descriptors p'.server.clients) p'.sockets }
