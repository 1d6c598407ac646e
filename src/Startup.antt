-- ===== src/Startup.antt =====
-- The entry point of the server, src/server/main.cpp: the arguments, the configuration, the dump
-- that is loaded and the server that is started. What a file holds and what the calls of the system
-- return are parameters.
pub mod Restart
pub mod Ports
mod Tests
use my_redis.Prelude.{
  ℕ, zero, suc, ◌^◌, ◌*◌, Option, none, some, List, [], ◌∷◌, Bool, true, false, ◌&&◌, ltb, leb,
  ◌==◌, nat_eq, is_empty, if◌then◌else◌,
}
use my_redis.Prelude.Int.{ℤ, pos, negsuc}
use my_redis.Prelude.Text.{Text, text_eq, codes}
use my_redis.Number.{skip_space, digits_value}
use my_redis.Config.{Config, set_defaults, load_file, port, bind_addr, password}
use my_redis.Database.{Database, empty_database}
use my_redis.Database.ExpiryThread.{ExpiryThread, start_expiry_thread, stop_expiry_thread}
use my_redis.PubSub.{empty_pubsub}
use my_redis.Persistence.File.{Files, load}
use my_redis.Server.{Server}
use my_redis.Server.Lifecycle.{Process, Opening, Event, start, destroy}

-- `argv` without the program's name.
abbrev pub Arguments : Type 0
Arguments = List Text

-- The loop that looks for `--config` and loads the file behind it; a name that is last is left.
unfoldable pub load_config : (Text → Option Text) → Arguments → Config → Config
unfolding load_file
load_config read [] config = config
load_config read (arg ∷ []) config = config
load_config read (arg ∷ value ∷ rest) config =
    let loaded = load_config read rest (load_file (read value) config).1 in
    let next = load_config read (value ∷ rest) config in
    if arg == codes "--config" then loaded else next

abbrev minus : ℕ → ℤ
minus zero = pos 0
minus (suc n) = negsuc n

-- The number that `strtol` reads, were a long unbounded; 0 where there is none.
unfoldable pub leading_number : Text → ℤ
unfolding digits_value
leading_number [] = pos 0
leading_number (c ∷ s) =
    if c == 45
    then minus (digits_value 0 s)
    else pos (if c == 43 then digits_value 0 s else digits_value 0 (c ∷ s))

abbrev fits_int : ℤ → Bool
fits_int (pos n) = ltb n (2 ^ 31)
fits_int (negsuc n) = ltb n (2 ^ 31)

-- C leaves it open what `atoi` returns for a number that is no int: `beyond` is that.
unfoldable pub atoi : (Text → ℤ) → Text → ℤ
unfolding skip_space leading_number
atoi beyond s = let n = leading_number (skip_space s) in if fits_int n then n else beyond s

-- `if (p > 0 && p <= 65535) port = p`
unfoldable pub accept_port : ℤ → ℤ → ℤ
accept_port (negsuc n) port = port
accept_port (pos p) port = if ltb 0 p && leb p 65535 then pos p else port

unfoldable pub choose_port : (Text → ℤ) → Arguments → ℤ → ℤ
unfolding atoi accept_port
choose_port beyond [] port = port
choose_port beyond (arg ∷ []) port =
    if arg == codes "--config" then port else accept_port (atoi beyond arg) port
choose_port beyond (arg ∷ value ∷ rest) port =
    let skipped = choose_port beyond rest port in
    let next = choose_port beyond (value ∷ rest) (accept_port (atoi beyond arg) port) in
    if arg == codes "--config" then skipped else next

abbrev pub dump_path : Text
dump_path = codes "dump.mrdb"

-- What the process finds: its arguments, the files of the configuration, and those of the dumps.
pub record Surrounding : Type 0 where
  pub arguments : Arguments
  pub read_config : Text → Option Text
  pub beyond : Text → ℤ
  pub now : ℕ
  pub files : Files

unfoldable pub configure : Surrounding → Config
unfolding load_config set_defaults
configure m = load_config m.read_config m.arguments (set_defaults [])

-- The address that the server listens on.
unfoldable pub address : Surrounding → Text × ℤ
unfolding configure choose_port port bind_addr
address m =
    let config = configure m in (bind_addr config, choose_port m.beyond m.arguments (port config))

-- `main` up to `server.start()`. An empty password is not set, and is none.
unfoldable pub boot : Surrounding → Process
unfolding configure load password
boot m = record {
  server = record {
    clients = [];
    shared = record {
      db = (load m.now dump_path m.files empty_database).1;
      pubsub = empty_pubsub;
      files = m.files;
    };
    password = password (configure m);
  };
  listen_fd = none;
  running = false;
  sockets = [];
}

-- The thread that `db` has when it is made.
abbrev pub no_thread : ExpiryThread
no_thread = record { expiry_running = false; joinable = false }

-- The exit status, and the server when it is destroyed with the expiry thread as it is then; none
-- where the platform has no sockets. The thread's rounds are among the events.
unfoldable pub run_main :
    Bool → Surrounding → Opening → List Event → ℕ × Option (Process × ExpiryThread)
unfolding boot start destroy start_expiry_thread stop_expiry_thread
run_main initialized m o events =
    let thread = start_expiry_thread no_thread in
    let served = start o events (boot m) in
    if initialized then (0, some (destroy served, stop_expiry_thread thread)) else (1, none)
