-- ===== src/Database/ExpiryThread.antt =====
-- The background thread of src/database/database.cpp: `start_expiry_thread`, `stop_expiry_thread`
-- and the rounds of `expiry_loop`.
use my_redis.Prelude.{arith, ℕ, ◌≤◌, ◌≡◌, List, [], ◌∷◌, Bool, true, false, if◌then◌else◌, refl}
use my_redis.Prelude.Text.{Text}
use my_redis.Database.{Database, expiry_scan}
use my_redis.Database.View.{view}
use my_redis.Database.Distinct.{IsDistinct, run-IsDistinct}
use my_redis.Database.Operations.{Operation, after, run}
use my_redis.Database.Expiry.{view-expiry_scan}

-- `expiry_running_`, and whether the thread can be joined.
pub record ExpiryThread : Type 0 where
  pub expiry_running : Bool
  pub joinable : Bool

unfoldable pub start_expiry_thread : ExpiryThread → ExpiryThread
start_expiry_thread thread = record { expiry_running = true; joinable = true }

-- A thread that is not running is not joined.
unfoldable pub stop_expiry_thread : ExpiryThread → ExpiryThread
stop_expiry_thread thread =
    if thread.expiry_running then record { expiry_running = false; joinable = false } else thread

-- A round: the flag when the loop tests it, the flag behind the wait, and the time of the scan.
pub record Tick : Type 0 where
  pub before : Bool
  pub woken : Bool
  pub now : ℕ

-- The scan of an empty map is none.
unfoldable pub expiry_loop : List Tick → Database → Database
unfolding expiry_scan
expiry_loop [] db = db
expiry_loop (tick ∷ ticks) db =
    let rest = expiry_loop ticks (expiry_scan tick.now db) in
    if tick.before then if tick.woken then rest else db else db

abbrev pub AllUntil : ℕ → List Tick → Type 0
AllUntil later [] = Unit {0}
AllUntil later (tick ∷ ticks) = (tick.now ≤ later) × AllUntil later ticks

-- Whatever the thread does up to an instant, and whenever it is stopped, a client sees the same
-- value at every key from that instant on, where no map holds a key twice.
pub view-expiry_loop :
    (ticks : List Tick) (later : ℕ) (key : Text) (db : Database)
    → AllUntil later ticks
    → IsDistinct db
    → view later key (expiry_loop ticks db) ≡ view later key db
unfolding expiry_loop after run
view-expiry_loop [] later key db h distinct = refl
view-expiry_loop (tick ∷ ticks) later key db (le, h) distinct = ground (
  arith,
  view-expiry_loop ticks later key (expiry_scan tick.now db) h
      (run-IsDistinct (Operation.expiry_scan tick.now ∷ []) db distinct),
  view-expiry_scan tick.now later key db le distinct,
)
