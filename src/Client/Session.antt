-- ===== src/Client/Session.antt =====
-- The connection of src/networking/client.cpp and the prompt of src/client/main.cpp. What the calls
-- of the system return is a parameter, line by line.
use my_redis.Prelude.{
  ℕ, Option, none, some, List, [], ◌∷◌, Bool, true, false, ◌&&◌, ◌||◌, ◌==◌, nat_eq, is_some,
  if◌then◌else◌,
}
use my_redis.Prelude.Int.{ℤ, pos}
use my_redis.Prelude.Text.{Text, text_eq, codes}
use my_redis.Number.{is_space, upper}
use my_redis.Socket.{SocketWrite}
use my_redis.Startup.{Arguments, atoi}
use my_redis.Client.{send_command}

-- `fd_`, none where it is `INVALID_SOCKET_VAL`, and `read_buffer_`.
pub record Connection : Type 0 where
  pub fd : Option ℕ
  pub buffer : Text

-- What `socket`, `inet_pton` and `::connect` return.
pub record Dialing : Type 0 where
  pub socket : Option ℕ
  pub address_valid : Bool
  pub established : Bool

unfoldable pub connect : Dialing → Connection → Bool × Connection
connect o c = elim o.socket [
  | none ↦ (false, record c { fd = none })
  | some fd ↦
      if o.address_valid
      then if o.established
        then (true, record { fd = some fd; buffer = [] })
        else (false, record c { fd = none })
      else (false, record c { fd = none })
]

unfoldable pub disconnect : Connection → Connection
disconnect c = record { fd = none; buffer = [] }

-- A line at the prompt, with the calls of the system that sending it makes.
pub record Input : Type 0 where
  pub line : Text
  pub socket_write : SocketWrite
  pub reads : List Text

-- `Client::send_command` with its test of the socket, and `disconnect()` where it fails.
unfoldable pub send : Input → Connection → Text × Connection
unfolding send_command disconnect
send i c =
    let (response, connected, buffer) = send_command i.socket_write i.reads i.line c.buffer in
    if is_some c.fd
    then (response, if connected then record c { buffer = buffer } else disconnect c)
    else (codes "Error: Not connected", c)

-- An empty line, or one of white space alone
unfoldable pub is_skipped : Text → Bool
unfolding is_space
is_skipped [] = true
is_skipped (c ∷ s) = is_space c && is_skipped s

-- " \t"
unfoldable pub is_trimmed : ℕ → Bool
is_trimmed c = c == 32 || c == 9

-- From the first character that is not trimmed; none where there is none.
unfoldable pub trim_front? : Text → Option Text
unfolding is_trimmed
trim_front? [] = none
trim_front? (c ∷ s) = let rest = trim_front? s in if is_trimmed c then rest else some (c ∷ s)

-- Up to the last character that is not trimmed; none where there is none.
unfoldable pub trim_back? : Text → Option Text
unfolding is_trimmed
trim_back? [] = none
trim_back? (c ∷ s) = elim (trim_back? s) [
  | some t ↦ some (c ∷ t)
  | none ↦ if is_trimmed c then none else some (c ∷ [])
]

abbrev pub or_whole : Option Text → Text → Text
or_whole none s = s
or_whole (some t) s = t

unfoldable pub is_quit : Text → Bool
unfolding upper trim_front? trim_back?
is_quit line =
    let upper_line = upper line in
    let from_start = or_whole (trim_front? upper_line) upper_line in
    or_whole (trim_back? from_start) from_start == codes "QUIT"

-- The loop, over the lines up to the end of the input: what is printed, and the connection then.
unfoldable pub repl : List Input → Connection → List Text × Connection
unfolding send is_skipped is_quit
repl [] c = ([], c)
repl (i ∷ inputs) c =
    let skipped = repl inputs c in
    let (response, c') = send i c in
    let (responses, final) = repl inputs c' in
    if is_skipped i.line
    then skipped
    else if is_quit i.line
    then (response ∷ [], c')
    else if is_some c'.fd
    then (response ∷ responses, final)
    else (response ∷ [], c')

unfoldable pub host_and_port : (Text → ℤ) → Arguments → Text × ℤ
unfolding atoi
host_and_port beyond [] = (codes "127.0.0.1", pos 6399)
host_and_port beyond (host ∷ []) = (host, pos 6399)
host_and_port beyond (host ∷ port ∷ rest) = (host, atoi beyond port)

-- The exit status, the responses, and the connection in the end; `initialized` is what
-- `platform::init` returns.
unfoldable pub run_client : Bool → Dialing → List Input → ℕ × List Text × Connection
unfolding connect repl disconnect
run_client initialized o inputs =
    let unconnected : Connection = record { fd = none; buffer = [] } in
    let (connected, c) = connect o unconnected in
    let (responses, final) = repl inputs c in
    if initialized
    then if connected then (0, responses, disconnect final) else (1, [], c)
    else (1, [], unconnected)
