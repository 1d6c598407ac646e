-- ===== src/Server.antt =====
-- The event loop: include/networking/server.h and src/networking/server.cpp. The sockets are the
-- operating system's: what a read yields and which sends succeed are parameters.
pub mod Session
pub mod Guard
pub mod Exec
pub mod Round
pub mod Fuel
pub mod Traces
pub mod Invariant
pub mod Wire
pub mod Pipeline
pub mod Lifecycle
pub mod Descriptors
pub mod Shutdown
pub mod Running
mod Tests
use my_redis.Prelude.{
  ℕ, zero, suc, ◌+◌, ◌*◌, Option, none, some, List, [], ◌∷◌, ◌++◌, Bool, true, false, not, ◌&&◌,
  ltb, ◌==◌, nat_eq, is_empty, if◌then◌else◌, drop, length,
}
use my_redis.Prelude.Text.{Text, text_eq, codes}
use my_redis.Dict.{Dict, find, assign, erase}
use my_redis.Parser.{Command}
use my_redis.PubSub.{client_disconnected}
use my_redis.Resp.{parsed, need_more, protocol_error, parse_command}
use my_redis.Resp.Serialize.{error, simple_string, serialize_response}
use my_redis.Commands.{Context, Shared}
use my_redis.Commands.Reply.{wrong_number}
use my_redis.Commands.Transactions.{State, new_handler, execute}

-- The address of a client only goes to the log.
pub record ClientState : Type 0 where
  pub read_buffer : Text
  pub authenticated : Bool

abbrev pub new_client : ClientState
new_client = record { read_buffer = []; authenticated = false }

-- What happens around the commands of one read: the context of the i-th command, and whether the
-- i-th response could be sent to the client.
pub record Surroundings : Type 0 where
  pub context : ℕ → Context
  pub sent_ok : ℕ → Bool

pub record Processed : Type 0 where
  pub connected : Bool
  pub client : ClientState
  pub shared : Shared
  pub sent : List Text

-- The reply to AUTH, and whether the client is authenticated then.
unfoldable pub authenticate : Text → List Text → Text × Bool
authenticate password (given ∷ []) =
    if given == password then (codes "OK", true) else (codes "ERR invalid password", false)
authenticate password _ = (wrong_number "AUTH", false)

-- The handler is made for this one command, and gone after it.
unfoldable pub respond :
    Text → ℕ → Context → Command → ClientState → Shared → Text × ClientState × Shared
unfolding authenticate
respond password fd c cmd client s =
    let (auth_reply, authenticated) = authenticate password cmd.args in
    let (response, after) = execute fd c cmd (new_handler, s) in
    if not (is_empty password) && not client.authenticated
    then if cmd.name == codes "AUTH"
      then (auth_reply, record client { authenticated = authenticated }, s)
      else (codes "NOAUTH Authentication required.", client, s)
    else (response, client, after.1)

abbrev pub max_buffer : ℕ
max_buffer = 64 * 1024 * 1024

abbrev pub hang_up : ClientState → Shared → List Text → Processed
hang_up client s sent = record { connected = false; client = client; shared = s; sent = sent }

-- `i` counts the commands so far. Each round takes a byte at least off the buffer, so the length of
-- the buffer is fuel enough.
unfoldable pub process_loop :
    Text → ℕ → Surroundings → ℕ → ℕ → ClientState → Shared → List Text → Processed
unfolding respond
process_loop password fd w zero i client s sent = record {
  connected = true;
  client = client;
  shared = s;
  sent = sent;
}
process_loop password fd w (suc fuel) i client s sent = elim (parse_command client.read_buffer) [
  | protocol_error n ↦ hang_up client s (sent ++ (error (codes "ERR Protocol error") ∷ []))
  | need_more n ↦ elim n [
    | zero ↦ record { connected = true; client = client; shared = s; sent = sent }
    | suc m ↦
        process_loop password fd w fuel i
          (record client { read_buffer = drop (suc m) client.read_buffer }) s sent
  ]
  | parsed cmd n ↦
      let client : ClientState = record client { read_buffer = drop n client.read_buffer } in
      let (response, client', s') = respond password fd (w.context i) cmd client s in
      let sent' = sent ++ (serialize_response response ∷ []) in
      let rest = process_loop password fd w fuel (i + 1) client' s' sent' in
      if ltb max_buffer (length client.read_buffer)
      then hang_up client s sent
      else if cmd.name == codes "QUIT"
      then hang_up client s (sent ++ (simple_string (codes "OK") ∷ []))
      else if w.sent_ok i
      then rest
      else hang_up client' s' sent'
]

-- The bytes that one `socket_read` of the server or of the client yields at most.
abbrev pub max_read : ℕ
max_read = 4096

-- What `socket_read` on a readable client yields. The bytes received are `max_read` at most; the
-- model takes any number of them, so what holds for each read of the model holds for those of the
-- server.
pub data Incoming : Type 0 where
  received : Text → Incoming
  would_block closed : Incoming

pub record Server : Type 0 where
  pub clients : Dict ℕ ClientState
  pub shared : Shared
  pub password : Text

unfoldable pub client_at : ℕ → Server → ClientState
client_at fd server = elim (find fd server.clients) [ none ↦ new_client | some c ↦ c ]

-- Whether the client stays, the server, and the responses that went out.
unfoldable pub process_client : ℕ → Surroundings → Incoming → Server → Bool × Server × List Text
unfolding client_at process_loop
process_client fd w closed server = (false, server, [])
process_client fd w would_block server = (true, server, [])
process_client fd w (received bytes) server =
    let client = client_at fd server in
    let buffer = client.read_buffer ++ bytes in
    let p =
      process_loop server.password fd w (length buffer) 0 (record client { read_buffer = buffer })
        server.shared [] in
    (
      p.connected,
      record server { clients = assign fd p.client server.clients; shared = p.shared },
      p.sent,
    )

unfoldable pub accept_client : ℕ → Server → Server
accept_client fd server = record server { clients = assign fd new_client server.clients }

unfoldable pub disconnect_client : ℕ → Server → Server
disconnect_client fd server = record server {
  clients = erase fd server.clients;
  shared = record server.shared { pubsub = client_disconnected fd server.shared.pubsub };
}

-- The clients that `select` reports, in turn; those to disconnect are collected.
unfoldable pub process_all : List (ℕ × Surroundings × Incoming) → Server → List ℕ × Server
unfolding process_client
process_all [] server = ([], server)
process_all ((fd, w, incoming) ∷ rest) server =
    let (stays, server', sent) = process_client fd w incoming server in
    let (to_disconnect, final) = process_all rest server' in
    ((if stays then to_disconnect else fd ∷ to_disconnect), final)

unfoldable pub disconnect_all : List ℕ → Server → Server
unfolding disconnect_client
disconnect_all [] server = server
disconnect_all (fd ∷ fds) server = disconnect_all fds (disconnect_client fd server)

-- One round of the loop behind `select`: a new connection, the readable clients, the disconnects.
unfoldable pub event_round : Option ℕ → List (ℕ × Surroundings × Incoming) → Server → Server
unfolding accept_client process_all disconnect_all
event_round accepted readable server =
    let server' : Server = elim accepted [ none ↦ server | some fd ↦ accept_client fd server ] in
    let (to_disconnect, after) = process_all readable server' in disconnect_all to_disconnect after
