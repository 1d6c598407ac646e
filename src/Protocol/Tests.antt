-- ===== src/Protocol/Tests.antt =====
-- A socket that gives a byte at a time, and the theorem of this part at it.
use my_redis.Prelude.{ℕ, zero, suc, arith, ◌<◌, ◌≤◌, ◌≡◌, ◌≢◌, refl, [], ◌∷◌, ◌++◌, length}
use my_redis.Prelude.Text.{Text, codes}
use my_redis.Socket.{Socket}
use my_redis.Protocol.{encode, read_message}
use my_redis.Protocol.RoundTrip.{HasRead, not_empty, read_message-encode}

abbrev read_byte_of : ℕ → Text → Text × Text
read_byte_of zero s = ([], s)
read_byte_of (suc want) [] = ([], [])
read_byte_of (suc want) (c ∷ s) = (c ∷ [], s)

split : (want : ℕ) (s : Text) → (read_byte_of want s).0 ++ (read_byte_of want s).1 ≡ s
split zero s = refl
split (suc want) [] = refl
split (suc want) (c ∷ s) = refl

at_most : (want : ℕ) (s : Text) → length (read_byte_of want s).0 ≤ want
at_most zero s = omega arith
at_most (suc want) [] = omega arith
at_most (suc want) (c ∷ s) = omega arith

something : (want : ℕ) (s : Text) → 0 < want → s ≢ [] → (read_byte_of want s).0 ≢ []
something zero s h n = absurd (omega arith)
something (suc want) [] h n = absurd (n refl)
something (suc want) (c ∷ s) h n = not_empty c []

abbrev slow : Socket
slow = record {
  S = Text;
  read = read_byte_of;
  pending = λ s. s;
  read_split = split;
  read_fits = at_most;
  read_some = something;
}

read_message-encode_example :
    HasRead slow
      (codes "hello")
      (codes "next")
      (read_message slow (encode (codes "hello") ++ codes "next"))
read_message-encode_example =
    read_message-encode slow (codes "hello") (codes "next") (encode (codes "hello") ++ codes "next")
      (omega arith) refl
