-- ===== src/Socket.antt =====
-- The loops that write and read a number of bytes: `write_exact` of src/resp/resp.cpp and
-- src/protocol/protocol.cpp, the loop of `Client::send_command`, and `Protocol::read_exact`.
-- The operating system is a parameter: `socket_write i buffer` is what the i-th call returns.
use my_redis.Prelude.{
  ℕ, zero, suc, ◌+◌, ◌-◌, ◌≤◌, ◌<◌, ◌≡◌, ◌≢◌, [], ◌∷◌, ◌++◌, Option, none, some, Bool, true, false,
  take, drop, length,
}
use my_redis.Prelude.Int.{ℤ, pos, negsuc}
use my_redis.Prelude.Text.{Text}

abbrev pub SocketWrite : Type 0
SocketWrite = ℕ → Text → ℤ

-- The result, and the bytes that the system took. A call takes one byte at least, so the length
-- of the buffer is fuel enough; `calls` counts the calls so far.
unfoldable pub write_loop : SocketWrite → ℕ → ℕ → Text → Bool × Text
write_loop socket_write fuel calls [] = (true, [])
write_loop socket_write zero calls (c ∷ s) = (false, [])
write_loop socket_write (suc fuel) calls (c ∷ s) = elim (socket_write calls (c ∷ s)) [
  | negsuc n ↦ (false, [])
  | pos n ↦ elim n [
    | zero ↦ (false, [])
    | suc m ↦
        let (result, taken) = write_loop socket_write fuel (calls + 1) (drop (suc m) (c ∷ s)) in
        (result, take (suc m) (c ∷ s) ++ taken)
  ]
]

unfoldable pub write_exact : SocketWrite → Text → Bool × Text
unfolding write_loop
write_exact socket_write buffer = write_loop socket_write (length buffer) 0 buffer

-- A socket that is read: `read want s` is the bytes that one call returns, none of them at the end
-- of the stream or on an error, and the socket behind it. `pending` is what the peer has sent and
-- the program has not read: a call returns a part of it that fits, and something unless it is
-- empty.
pub record Socket : Type 1 where
  pub S : Type 0
  pub read : ℕ → S → Text × S
  pub pending : S → Text
  pub read_split : (want : ℕ) (s : S) → (read want s).0 ++ pending (read want s).1 ≡ pending s
  pub read_fits : (want : ℕ) (s : S) → length (read want s).0 ≤ want
  pub read_some : (want : ℕ) (s : S) → 0 < want → pending s ≢ [] → (read want s).0 ≢ []

module _ (socket : Socket) where
  open socket use {S, read}

  -- Each round reads a byte at least, so `want` is fuel enough.
  unfoldable pub read_loop : ℕ → ℕ → S → Option (Text × S)
  read_loop fuel zero s = some ([], s)
  read_loop zero (suc want) s = none
  read_loop (suc fuel) (suc want) s =
      let (bytes, s') = read (suc want) s in
      elim bytes [
        | [] ↦ none
        | c ∷ rest ↦ elim (read_loop fuel (suc want - length (c ∷ rest)) s') [
          | none ↦ none
          | some (more, final) ↦ some ((c ∷ rest) ++ more, final)
        ]
      ]

  unfoldable pub read_exact : ℕ → S → Option (Text × S)
  unfolding read_loop
  read_exact n s = read_loop n n s
