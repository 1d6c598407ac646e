-- ===== src/Startup/Tests.antt =====
-- A server that is started again from its dump, and the theorems of this part at it.
use my_redis.Prelude.{if◌then◌else◌}
use my_redis.Database.View.{view, value_of}
use my_redis.Persistence.Failure.{IsComplete}
use my_redis.Persistence.Restored.{still_there}
use my_redis.Prelude.{arith, ℕ, ◌≡◌, refl, none, some, List, [], ◌∷◌, true, nat_eq}
use my_redis.Prelude.Int.{pos}
use my_redis.Prelude.Text.{Text, text_eq, text_beq, text_beq_iff, codes}
use my_redis.Dict.{find, contains}
use my_redis.Database.{Database, get_snapshot}
use my_redis.Database.Invariant.{IsWellFormed}
use my_redis.PubSub.{empty_pubsub}
use my_redis.PubSub.Consistency.{empty-Agree, listens}
use my_redis.PubSub.Sets.{member, set_at}
use my_redis.Persistence.{count_entries}
use my_redis.Persistence.File.{all_well, save}
use my_redis.Persistence.Dump.{IsStorable}
use my_redis.Server.{Server}
use my_redis.Server.Invariant.{IsSound}
use my_redis.Server.Lifecycle.{Opening, Event, scanned, timed_out, ready, start, destroy}
use my_redis.Startup.{Surrounding, dump_path, boot, choose_port}
use my_redis.Startup.Ports.{positional, last_port, or_else, choose_port-last}
use my_redis.Startup.Restart.{restart-IsSound}

abbrev db : Database
db = record {
  store = (codes "a", codes "one") ∷ [];
  list_store = (codes "b", codes "x" ∷ []) ∷ [];
  expiry = (codes "a", 5000000000) ∷ [];
}

abbrev server : Server
server = record {
  clients = [];
  shared = record { db = db; pubsub = empty_pubsub; files = [] };
  password = [];
}

db-IsWellFormed : IsWellFormed db
unfolding find
db-IsWellFormed k = ground (arith, text_beq_iff (codes "a") k, text_beq_iff (codes "b") k)

no_listener :
    (fd : ℕ) (c : Text) → listens fd c empty_pubsub ≡ true → contains fd server.clients ≡ true
unfolding set_at member find
no_listener fd c e = absurd (ground (arith, e))

server-IsSound : IsSound server
unfolding find
server-IsSound = record {
  well_formed = db-IsWellFormed;
  distinct = record { store = (refl, tt); list_store = (refl, tt); expiry = (refl, tt) };
  agree = empty-Agree;
  connected = no_listener;
}

db-IsStorable : IsStorable 2000000000 (get_snapshot db)
unfolding count_entries find text_beq get_snapshot
db-IsStorable = (
  omega arith,
  (
    ((omega arith, omega arith, omega arith), tt),
    ((omega arith, (omega arith, (omega arith, tt)), tt), tt),
  ),
)

abbrev surrounding : Surrounding
surrounding = record {
  arguments = codes "7000" ∷ codes "--config" ∷ codes "8000" ∷ [];
  read_config = λ name. none;
  beyond = λ s. pos 0;
  now = 7;
  files = (save all_well 2000000000 dump_path db []).1;
}

abbrev opening : Opening
opening = record { socket = some 3; bound = true; listening = true }

abbrev events : List Event
events = ready (some 8) (λ fd. none) ∷ timed_out ∷ scanned 6000000000 ∷ []

all_well-IsComplete : IsComplete all_well
all_well-IsComplete = record {
  written = refl;
  renamed = refl;
  stored = refl;
  check_opened = refl;
  checked = refl;
  crc_written = omega arith;
}

restart-IsSound_example :
    (view 9 (codes "a") (boot surrounding).server.shared.db ≡ (
      if still_there 7 2000000000 9 (find (codes "a") db.expiry)
      then value_of (find (codes "a") db.store) (find (codes "a") db.list_store)
      else none))
    × IsSound (destroy (start opening events (boot surrounding))).server
restart-IsSound_example =
    restart-IsSound server all_well 2000000000 surrounding opening events (codes "a") 9
      server-IsSound db-IsStorable all_well-IsComplete refl (omega arith)

choose_port-last_example :
    choose_port (λ s. pos 0) surrounding.arguments (pos 6399)
    ≡ or_else (last_port (λ s. pos 0) (positional surrounding.arguments)) (pos 6399)
choose_port-last_example = choose_port-last (λ s. pos 0) surrounding.arguments (pos 6399)
