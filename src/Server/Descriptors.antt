-- ===== src/Server/Descriptors.antt =====
-- The descriptors of src/networking/server.cpp: which of them its members still name.
use my_redis.Prelude.{
  arith, ℕ, ◌≡◌, Option, none, some, List, [], ◌∷◌, Bool, true, false, ◌||◌, ◌&&◌, not, ◌==◌,
  nat_eq, refl,
}
use my_redis.Dict.{Dict, contains, assign}
use my_redis.PubSub.Sets.{member, remove, member-remove}
use my_redis.Server.{
  ClientState, Surroundings, Incoming, received, would_block, closed, Server, process_client,
  disconnect_client, process_all, disconnect_all,
}
use my_redis.Server.Invariant.{contains-assign, contains-erase}
use my_redis.Server.Lifecycle.{Process, close_all}

abbrev pub is_listener : ℕ → Option ℕ → Bool
is_listener fd none = false
is_listener fd (some listener) = listener == fd

-- Every open descriptor is that of a client or that of the listening socket.
unfoldable pub IsAccounted : Process → Type 0
IsAccounted p =
    (fd : ℕ)
    → member fd p.sockets ≡ true
    → (contains fd p.server.clients || is_listener fd p.listen_fd) ≡ true

pub member-close_all :
    (fd : ℕ) (fds sockets : List ℕ)
    → member fd (close_all fds sockets) ≡ (not (member fd fds) && member fd sockets)
unfolding close_all member
member-close_all fd [] sockets = refl
member-close_all fd (x ∷ fds) sockets =
    ground (arith, member-close_all fd fds (remove x sockets), member-remove x fd sockets)

pub contains-disconnect_all :
    (fd : ℕ) (fds : List ℕ) (server : Server)
    → contains fd (disconnect_all fds server).clients
      ≡ (not (member fd fds) && contains fd server.clients)
unfolding disconnect_all disconnect_client member
contains-disconnect_all fd [] server = refl
contains-disconnect_all fd (x ∷ fds) server = ground (
  arith,
  contains-disconnect_all fd fds (disconnect_client x server),
  contains-erase x fd server.clients,
)

assign-keeps :
    (fd other : ℕ) (client : ClientState) (clients : Dict ℕ ClientState)
    → contains fd clients ≡ true
    → contains fd (assign other client clients) ≡ true
assign-keeps fd other client clients h = ground (arith, contains-assign other fd client clients, h)

process_client-keeps :
    (fd other : ℕ) (w : Surroundings) (incoming : Incoming) (server : Server)
    → contains fd server.clients ≡ true
    → contains fd (process_client other w incoming server).1.clients ≡ true
unfolding process_client
process_client-keeps fd other w closed server h = h
process_client-keeps fd other w would_block server h = h
process_client-keeps fd other w (received bytes) server h = assign-keeps fd other _ server.clients h

pub process_all-keeps :
    (fd : ℕ) (readable : List (ℕ × Surroundings × Incoming)) (server : Server)
    → contains fd server.clients ≡ true
    → contains fd (process_all readable server).1.clients ≡ true
unfolding process_all
process_all-keeps fd [] server h = h
process_all-keeps fd ((other, w, incoming) ∷ rest) server h =
    process_all-keeps fd rest (process_client other w incoming server).1
      (process_client-keeps fd other w incoming server h)
