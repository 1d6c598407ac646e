-- ===== src/Commands/Traces.antt =====
-- What a command does to the shared state, as calls of the database, of the subscriptions and of the
-- dump: the handlers of src/commands/command_handler.cpp against the operations below them.
pub mod Keys
pub mod Lists
pub mod Dispatch
pub mod Transactions
use my_redis.Prelude.{
  arith, ℕ, zero, suc, ◌≡◌, ◌≢◌, Option, none, some, List, [], ◌∷◌, ◌++◌, Bool, true, false, All,
  ◌==◌, if◌then◌else◌, refl, ◌∙◌, sym, ap, Bool-cases, inl, inr,
}
use my_redis.Prelude.Int.{ℤ, pos, negsuc}
use my_redis.Prelude.Text.{Text, text_eq, codes}
use my_redis.Number.{stoi, upper}
use my_redis.Parser.{Command}
use my_redis.Database
use my_redis.Database.{Database}
use my_redis.Database.Operations
use my_redis.Database.Operations.{Operation, after, run}
use my_redis.PubSub.{PubSub}
use my_redis.PubSub.Publish.{Call, perform, perform_all}
use my_redis.PubSub.Others.{IsOwn}
use my_redis.Persistence.File.{Files}
use my_redis.Commands
use my_redis.Commands.{Context, Shared}
use my_redis.Commands.ListHandlers
use my_redis.Commands.PubSubHandlers
use my_redis.Commands.Dispatch.{execute_single, execute_key, execute_list, execute_config}

-- The second state comes from the first by operations of the database and calls of the subscriptions
-- that the client may make.
pub record Traces (client : ℕ) (s t : Shared) : Type 0 where
  pub operations : List Operation
  pub calls : List Call
  pub db : t.db ≡ run operations s.db
  pub pubsub : t.pubsub ≡ perform_all calls s.pubsub
  pub own : All (IsOwn client) calls

pub nothing : (client : ℕ) (s : Shared) → Traces client s s
unfolding run perform_all
nothing client s = record { operations = []; calls = []; db = refl; pubsub = refl; own = tt }

-- One operation of the database.
pub one :
    (client : ℕ) (op : Operation) (s : Shared) (db : Database)
    → db ≡ after op s.db
    → Traces client s (record s { db = db })
unfolding run perform_all
one client op s db e = record { operations = op ∷ []; calls = []; db = e; pubsub = refl; own = tt }

pub call_one :
    (client : ℕ) (call : Call) (s : Shared) (ps : PubSub)
    → IsOwn client call
    → ps ≡ perform call s.pubsub
    → Traces client s (record s { pubsub = ps })
unfolding run perform_all
call_one client call s ps o e = record {
  operations = [];
  calls = call ∷ [];
  db = refl;
  pubsub = e;
  own = (o, tt);
}

run-append :
    (ops more : List Operation) (db : Database) → run (ops ++ more) db ≡ run more (run ops db)
unfolding run
run-append [] more db = refl
run-append (op ∷ ops) more db = run-append ops more (after op db)

perform_all-append :
    (calls more : List Call) (ps : PubSub)
    → perform_all (calls ++ more) ps ≡ perform_all more (perform_all calls ps)
unfolding perform_all
perform_all-append [] more ps = refl
perform_all-append (call ∷ calls) more ps = perform_all-append calls more (perform call ps)

All-append : (P : Call → Type 0) (xs ys : List Call) → All P xs → All P ys → All P (xs ++ ys)
All-append P [] ys h k = k
All-append P (x ∷ xs) ys (h, hs) k = (h, All-append P xs ys hs k)

-- One command after another.
pub Traces-trans :
    (client : ℕ) (s t u : Shared) → Traces client s t → Traces client t u → Traces client s u
Traces-trans client s t u a b = record {
  operations = a.operations ++ b.operations;
  calls = a.calls ++ b.calls;
  db = b.db ∙ ap (λ d. run b.operations d) a.db ∙ sym (run-append a.operations b.operations s.db);
  pubsub =
      b.pubsub
      ∙ ap (λ p. perform_all b.calls p) a.pubsub
      ∙ sym (perform_all-append a.calls b.calls s.pubsub);
  own = All-append (IsOwn client) a.calls b.calls a.own b.own;
}

-- A branch of a dispatch.
abbrev pub TracesTo : ℕ → Shared → Text × Shared → Type 0
TracesTo client s r = Traces client s r.1

pub either :
    (client : ℕ) (s : Shared) (b : Bool) (x y : Text × Shared)
    → TracesTo client s x
    → TracesTo client s y
    → TracesTo client s (if b then x else y)
either client s true x y p q = p
either client s false x y p q = q

pub either_db :
    {A : Type 0} (client : ℕ) (s : Shared) (b : Bool) (x y : A × Database)
    → Traces client s (record s { db = x.1 })
    → Traces client s (record s { db = y.1 })
    → Traces client s (record s { db = (if b then x else y).1 })
either_db client s true x y p q = p
either_db client s false x y p q = q

-- Only the files change.
pub saved : (client : ℕ) (s : Shared) (files : Files) → Traces client s (record s { files = files })
unfolding run perform_all
saved client s files = record { operations = []; calls = []; db = refl; pubsub = refl; own = tt }
