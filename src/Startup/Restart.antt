-- ===== src/Startup/Restart.antt =====
-- A server that is started again from its dump: src/server/main.cpp over the files that the command
-- SAVE of src/commands/command_handler.cpp left.
use my_redis.Prelude.{if◌then◌else◌, none, ap, ◌∙◌}
use my_redis.Prelude.Text.{text_eq}
use my_redis.Database.View.{view, value_of}
use my_redis.Persistence.Failure.{IsComplete}
use my_redis.Persistence.Restored.{still_there}
use my_redis.Persistence.Restart.{view-load-save}
use my_redis.Prelude.{arith, ℕ, ◌≤◌, ◌≡◌, List, [], true, nat_eq, subst, sym}
use my_redis.Database.{empty_database, get_snapshot}
use my_redis.Prelude.{refl}
use my_redis.Database.Invariant.{IsWellFormed}
use my_redis.Database.Distinct.{IsDistinct}
use my_redis.PubSub.{empty_pubsub}
use my_redis.PubSub.Consistency.{empty-Agree, listens}
use my_redis.Persistence.Dump.{IsStorable}
use my_redis.Persistence.File.{Outcome, load, save}
use my_redis.Persistence.Restart.{load-save-IsWellFormed}
use my_redis.PubSub.Sets.{member, set_at}
use my_redis.Dict.{Dict, find, contains}
use my_redis.Prelude.Text.{Text}
use my_redis.Server.{ClientState, Server}
use my_redis.Server.Invariant.{IsSound, Reach-IsSound}
use my_redis.Server.Lifecycle.{Opening, Event, start, destroy}
use my_redis.Server.Running.{start-Reach}
use my_redis.Startup.{Surrounding, dump_path, boot}

abbrev no_clients : Dict ℕ ClientState
no_clients = []

no_listener : (fd : ℕ) (c : Text) → listens fd c empty_pubsub ≡ true → contains fd no_clients ≡ true
unfolding set_at member find
no_listener fd c e = absurd (ground (arith, e))

booted-view :
    (m : Surrounding) (key : Text) (t : ℕ)
    → view t key (boot m).server.shared.db
      ≡ view t key (load m.now dump_path m.files empty_database).1
unfolding boot
booted-view m key t = refl

boot-IsSound :
    (m : Surrounding)
    → IsWellFormed (load m.now dump_path m.files empty_database).1
      × IsDistinct (load m.now dump_path m.files empty_database).1
    → IsSound (boot m).server
unfolding boot
boot-IsSound m (formed, distinct) = record {
  well_formed = formed;
  distinct = distinct;
  agree = empty-Agree;
  connected = λ fd c e. no_listener fd c e;
}

-- A restart. What `main` makes of a dump that a sound server has saved whole, no call that the save
-- needs having failed, has the saved database: each key shows what it did, until the whole
-- milliseconds that its deadline was away are over, counted from the load. The server is sound again
-- when it has been run and destroyed, whatever its clients do meanwhile.
pub restart-IsSound :
    (s : Server) (saved : Outcome) (now : ℕ) (m : Surrounding) (o : Opening) (events : List Event)
    (key : Text) (t : ℕ)
    → IsSound s
    → IsStorable now (get_snapshot s.shared.db)
    → IsComplete saved
    → m.files ≡ (save saved now dump_path s.shared.db s.shared.files).1
    → m.now ≤ t
    → (view t key (boot m).server.shared.db ≡ (
        if still_there m.now now t (find key s.shared.db.expiry)
        then value_of (find key s.shared.db.store) (find key s.shared.db.list_store)
        else none))
      × IsSound (destroy (start o events (boot m))).server
restart-IsSound s saved now m o events key t sound fits complete files later = (
  booted-view m key t
      ∙ ap (λ f. view t key (load m.now dump_path f empty_database).1) files
      ∙ (view-load-save saved now m.now t dump_path key s.shared.db empty_database s.shared.files
          sound.distinct fits complete later).1,
  Reach-IsSound (start-Reach o events (boot m)) (
      boot-IsSound m (
        subst
          (λ f.
            IsWellFormed (load m.now dump_path f empty_database).1
            × IsDistinct (load m.now dump_path f empty_database).1)
          (sym files)
          (load-save-IsWellFormed saved now m.now dump_path s.shared.db empty_database
            s.shared.files sound.distinct sound.well_formed fits complete))),
)
