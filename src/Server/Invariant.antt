-- ===== src/Server/Invariant.antt =====
-- The whole server of src/networking/server.cpp as a state machine: rounds of the event loop and scans
-- of the expiry thread, in any order.
use my_redis.Prelude.{
  arith, ℕ, ◌≡◌, Option, none, some, List, [], ◌∷◌, true, ◌||◌, ◌&&◌, not, ◌==◌, nat_eq, Bool-cases,
  inl, inr, subst, sym,
}
use my_redis.Prelude.Text.{Text}
use my_redis.Dict.{Dict, contains, assign, erase}
use my_redis.Dict.Laws.{find-assign, find-erase}
use my_redis.Database.{expiry_scan}
use my_redis.Database.Operations.{Operation, after, run}
use my_redis.Database.Invariant.{IsWellFormed, run-IsWellFormed}
use my_redis.Database.Distinct.{IsDistinct, run-IsDistinct}
use my_redis.PubSub.{client_disconnected}
use my_redis.PubSub.Consistency.{Agree, listens, client_disconnected-Agree}
use my_redis.PubSub.Publish.{perform_all-Agree, listens-client_disconnected}
use my_redis.PubSub.Others.{perform_all_own}
use my_redis.Commands.{Shared}
use my_redis.Commands.Traces.{Traces}
use my_redis.Server.{
  ClientState, Surroundings, Incoming, received, would_block, closed, new_client, Server,
  process_client, accept_client, disconnect_client, process_all, disconnect_all, event_round,
}
use my_redis.Server.Traces.{process_client-Traces}

pub data Step (s : Server) : Server → Type 0 where
  round :
      (accepted : Option ℕ) (readable : List (ℕ × Surroundings × Incoming))
      → Step s (event_round accepted readable s)
  scan :
      (now : ℕ)
      → Step s (record s { shared = record s.shared { db = expiry_scan now s.shared.db } })

pub data Reach (s : Server) : Server → Type 0 where
  start : Reach s s
  later : {t u : Server} → Reach s t → Step t u → Reach s u

-- The database is well formed, no map holds a key twice, the two indices of the subscriptions agree,
-- and every subscriber is a client that is connected.
pub record IsSound (server : Server) : Type 0 where
  pub well_formed : IsWellFormed server.shared.db
  pub distinct : IsDistinct server.shared.db
  pub agree : Agree server.shared.pubsub
  pub connected :
      (fd : ℕ) (c : Text)
      → listens fd c server.shared.pubsub ≡ true
      → contains fd server.clients ≡ true

pub contains-assign :
    (k j : ℕ) (v : ClientState) (m : Dict ℕ ClientState)
    → contains j (assign k v m) ≡ ((k == j) || contains j m)
contains-assign k j v m = ground (arith, find-assign k j v m)

pub contains-erase :
    (k j : ℕ) (m : Dict ℕ ClientState) → contains j (erase k m) ≡ (not (k == j) && contains j m)
contains-erase k j m = ground (arith, find-erase k j m)

-- A client's own operations and calls, with the client among the connected ones afterwards.
traced-IsSound :
    (fd : ℕ) (server : Server) (shared : Shared) (client : ClientState)
    → Traces fd server.shared shared
    → IsSound server
    → IsSound (record server { clients = assign fd client server.clients; shared = shared })
traced-IsSound fd server shared client t h = record {
  well_formed =
      subst IsWellFormed (sym t.db) (run-IsWellFormed t.operations server.shared.db h.well_formed);
  distinct = subst IsDistinct (sym t.db) (run-IsDistinct t.operations server.shared.db h.distinct);
  agree = subst Agree (sym t.pubsub) (perform_all-Agree t.calls server.shared.pubsub h.agree);
  connected = λ other c e. rw (contains-assign fd other client server.clients) (
      still other c (
        perform_all_own fd other c t.calls server.shared.pubsub h.agree t.own
          (subst (λ ps. listens other c ps ≡ true) t.pubsub e)));
}
  where
    still :
        (other : ℕ) (c : Text)
        → ((fd == other) || listens other c server.shared.pubsub) ≡ true
        → ((fd == other) || contains other server.clients) ≡ true
    still other c e = elim (Bool-cases (fd == other)) [
      | inl same ↦ rw same
      | inr apart ↦ rw apart (h.connected other c (rw apart at e))
    ]

process_client-IsSound :
    (fd : ℕ) (w : Surroundings) (incoming : Incoming) (server : Server)
    → IsSound server
    → IsSound (process_client fd w incoming server).1
unfolding process_client
process_client-IsSound fd w closed server h = h
process_client-IsSound fd w would_block server h = h
process_client-IsSound fd w (received bytes) server h =
    traced-IsSound fd server _ _ (process_client-Traces fd w (received bytes) server) h

accept_client-IsSound :
    (fd : ℕ) (server : Server) → IsSound server → IsSound (accept_client fd server)
unfolding accept_client
accept_client-IsSound fd server h = record {
  well_formed = h.well_formed;
  distinct = h.distinct;
  agree = h.agree;
  connected = λ other c e.
      ground (arith, contains-assign fd other new_client server.clients, h.connected other c e);
}

disconnect_client-IsSound :
    (fd : ℕ) (server : Server) → IsSound server → IsSound (disconnect_client fd server)
unfolding disconnect_client
disconnect_client-IsSound fd server h = record {
  well_formed = h.well_formed;
  distinct = h.distinct;
  agree = client_disconnected-Agree fd server.shared.pubsub h.agree;
  connected = λ other c e.
      stays other c (listens-client_disconnected fd other c server.shared.pubsub h.agree) e;
}
  where
    stays :
        (other : ℕ) (c : Text)
        → listens other c (client_disconnected fd server.shared.pubsub)
          ≡ (not (fd == other) && listens other c server.shared.pubsub)
        → listens other c (client_disconnected fd server.shared.pubsub) ≡ true
        → contains other (erase fd server.clients) ≡ true
    stays other c l e = elim (Bool-cases (listens other c server.shared.pubsub)) [
      | inl on ↦ ground (arith, contains-erase fd other server.clients, h.connected other c on)
      | inr off ↦ absurd (ground arith)
    ]

process_all-IsSound :
    (readable : List (ℕ × Surroundings × Incoming)) (server : Server)
    → IsSound server
    → IsSound (process_all readable server).1
unfolding process_all
process_all-IsSound [] server h = h
process_all-IsSound ((fd, w, incoming) ∷ rest) server h =
    process_all-IsSound rest (process_client fd w incoming server).1
      (process_client-IsSound fd w incoming server h)

disconnect_all-IsSound :
    (fds : List ℕ) (server : Server) → IsSound server → IsSound (disconnect_all fds server)
unfolding disconnect_all
disconnect_all-IsSound [] server h = h
disconnect_all-IsSound (fd ∷ fds) server h =
    disconnect_all-IsSound fds (disconnect_client fd server) (disconnect_client-IsSound fd server h)

Step-IsSound : {s t : Server} → Step s t → IsSound s → IsSound t
unfolding event_round after run
Step-IsSound {s} (round none readable) h =
    disconnect_all-IsSound (process_all readable s).0 _ (process_all-IsSound readable s h)
Step-IsSound {s} (round (some fd) readable) h =
    disconnect_all-IsSound (process_all readable (accept_client fd s)).0 _
      (process_all-IsSound readable (accept_client fd s) (accept_client-IsSound fd s h))
Step-IsSound {s} (scan now) h = record {
  well_formed = run-IsWellFormed (Operation.expiry_scan now ∷ []) s.shared.db h.well_formed;
  distinct = run-IsDistinct (Operation.expiry_scan now ∷ []) s.shared.db h.distinct;
  agree = h.agree;
  connected = h.connected;
}

-- Every server that rounds of the event loop and scans of the expiry thread, in any order, make of a
-- sound one is sound: whatever the clients send, the database is well formed with no key twice, the
-- two indices of the subscriptions agree, and every subscriber is a connected client.
pub Reach-IsSound : {s t : Server} → Reach s t → IsSound s → IsSound t
Reach-IsSound start h = h
Reach-IsSound (later r step) h = Step-IsSound step (Reach-IsSound r h)
