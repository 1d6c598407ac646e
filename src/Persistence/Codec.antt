-- ===== src/Persistence/Codec.antt =====
-- The fields of a dump of src/persistence/persistence.cpp, written and read.
use my_redis.Prelude.{
  ℕ, ◌-◌, ◌/◌, ◌%◌, ◌^◌, ◌<◌, ◌≡◌, Option, none, some, List, [], ◌∷◌, ◌++◌, Bool, true, false,
  arith, refl, All, length, length-append, take-length_append, drop-length_append, ◌∙◌, ap,
}
use mathlib.Core.List.{append_assoc}
use my_redis.Prelude.Int.{ℤ, pos}
use my_redis.Prelude.Text.{Text}
use my_redis.Persistence.{
  write_uint32, write_int64, write_string, write_elements, write_list, write_ttl, nanos_per_milli,
}
use my_redis.Persistence.Read.{
  Reader, ◌>>=◌, pure, read_uint32, read_int64, read_bytes, read_string, read_elements, read_list,
  read_ttl,
}

-- One step of a reader that succeeds.
pub bind_some :
    {A B : Type 0} (m : Reader A) (f : A → Reader B) (s t : Text) (a : A)
    → m s ≡ some (a, t)
    → (m >>= f) s ≡ f a t
bind_some m f s t a e = rw (◌>>=◌, e)

pub read_uint32-write :
    (n : ℕ) (rest : Text) → n < 2 ^ 32 → read_uint32 (write_uint32 n ++ rest) ≡ some (n, rest)
unfolding read_uint32 write_uint32
read_uint32-write n rest h = ap (λ k. some (k, rest)) (omega arith)

pub read_int64-write :
    (n : ℕ) (rest : Text) → n < 2 ^ 63 → read_int64 (write_int64 n ++ rest) ≡ some (pos n, rest)
unfolding read_int64 write_int64
read_int64-write n rest h = ground arith

abbrev pub Short : Text → Type 0
Short s = length s < 2 ^ 32

read_bytes-append : (s rest : Text) → read_bytes (length s) (s ++ rest) ≡ some (s, rest)
unfolding read_bytes
read_bytes-append s rest =
    ground (arith, length-append s rest, take-length_append s rest, drop-length_append s rest)

pub read_string-write :
    (s rest : Text) → Short s → read_string (write_string s ++ rest) ≡ some (s, rest)
unfolding read_string write_string
read_string-write s rest h =
    bind_some read_uint32 (λ len. read_bytes len) (write_uint32 (length s % 2 ^ 32) ++ (s ++ rest))
      (s ++ rest) (length s % 2 ^ 32)
      (read_uint32-write (length s % 2 ^ 32) (s ++ rest) (omega arith))
    ∙ ap (λ k. read_bytes k (s ++ rest)) (omega arith)
    ∙ read_bytes-append s rest

pub read_elements-write :
    (l : List Text) (rest : Text)
    → All Short l
    → read_elements (length l) (write_elements l ++ rest) ≡ some (l, rest)
unfolding read_elements write_elements
read_elements-write [] rest h = refl
read_elements-write (x ∷ l) rest (h, hs) =
    rw (append_assoc (write_string x) (write_elements l) rest) (
      bind_some read_string _ (write_string x ++ (write_elements l ++ rest))
        (write_elements l ++ rest) x (read_string-write x (write_elements l ++ rest) h)
      ∙ bind_some (read_elements (length l)) _ (write_elements l ++ rest) rest l
          (read_elements-write l rest hs))

abbrev pub ShortList : List Text → Type 0
ShortList l = (length l < 2 ^ 32) × All Short l

pub read_list-write :
    (l : List Text) (rest : Text) → ShortList l → read_list (write_list l ++ rest) ≡ some (l, rest)
unfolding read_list write_list
read_list-write l rest (h, hs) =
    bind_some read_uint32 (λ n. read_elements n)
      (write_uint32 (length l % 2 ^ 32) ++ (write_elements l ++ rest)) (write_elements l ++ rest)
      (length l % 2 ^ 32)
      (read_uint32-write (length l % 2 ^ 32) (write_elements l ++ rest) (omega arith))
    ∙ ap (λ k. read_elements k (write_elements l ++ rest)) (omega arith)
    ∙ read_elements-write l rest hs

-- The remaining milliseconds of a deadline, as a dump has them.
abbrev pub millis_left : ℕ → Option ℕ → Option ℤ
millis_left now none = none
millis_left now (some deadline) = some (pos ((deadline - now) / nanos_per_milli))

abbrev pub has_deadline : Option ℕ → Bool
has_deadline none = false
has_deadline (some deadline) = true

abbrev pub SoonEnough : ℕ → Option ℕ → Type 0
SoonEnough now none = Unit {0}
SoonEnough now (some deadline) = (deadline - now) / nanos_per_milli < 2 ^ 63

pub read_ttl-write :
    (now : ℕ) (deadline : Option ℕ) (rest : Text)
    → SoonEnough now deadline
    → read_ttl (has_deadline deadline) (write_ttl now deadline ++ rest)
      ≡ some (millis_left now deadline, rest)
unfolding read_ttl write_ttl
read_ttl-write now none rest h = refl
read_ttl-write now (some d) rest h =
    bind_some read_int64 (λ ttl_ms. pure (some ttl_ms))
      (write_int64 ((d - now) / nanos_per_milli) ++ rest) rest (pos ((d - now) / nanos_per_milli))
      (read_int64-write ((d - now) / nanos_per_milli) rest h)
