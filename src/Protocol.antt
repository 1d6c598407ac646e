-- ===== src/Protocol.antt =====
-- The length-prefixed protocol: include/protocol/protocol.h and src/protocol/protocol.cpp.
pub mod RoundTrip
mod Tests
use my_redis.Prelude.{ℕ, ◌*◌, ◌%◌, ◌^◌, Option, none, some, ◌++◌, Bool, ltb, if◌then◌else◌, length}
use my_redis.Prelude.Text.{Text}
use my_redis.Persistence.{write_uint32}
use my_redis.Persistence.Read.{read_uint32}
use my_redis.Socket.{Socket, SocketWrite, read_exact, write_exact}

-- The bytes of `htonl(len)` in memory are big-endian on any host, as `write_uint32` writes them.
unfoldable pub encode : Text → Text
unfolding write_uint32
encode message = write_uint32 (length message % 2 ^ 32) ++ message

abbrev pub max_message : ℕ
max_message = 64 * 1024 * 1024

module _ (socket : Socket) where
  open socket use {S}

  unfoldable pub read_payload : ℕ → S → Option (Text × S)
  read_payload len s = if ltb max_message len then none else read_exact socket len s

  unfoldable pub read_message : S → Option (Text × S)
  unfolding read_payload read_uint32
  read_message s = elim (read_exact socket 4 s) [
    | none ↦ none
    | some (header, s') ↦ elim (read_uint32 header) [
      | none ↦ none
      | some (len, rest) ↦ read_payload len s'
    ]
  ]

unfoldable pub send_message : SocketWrite → Text → Bool × Text
unfolding encode
send_message socket_write message = write_exact socket_write (encode message)
