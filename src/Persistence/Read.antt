-- ===== src/Persistence/Read.antt =====
-- Reading a dump: the read half of src/persistence/persistence.cpp. A stream is the bytes ahead of
-- its position; a read that comes up short fails, and `load` returns false.
use Prim.Native.Nat.{bit_and}
use my_redis.Prelude.{
  ℕ, zero, suc, ◌+◌, ◌-◌, ◌*◌, ◌^◌, Option, none, some, List, [], ◌∷◌, Bool, true, false, not, ltb,
  leb, ◌==◌, nat_eq, if◌then◌else◌, take, drop, length,
}
use my_redis.Prelude.Int.{ℤ, pos, negsuc}
use my_redis.Prelude.Text.{Text, text_eq}
use my_redis.Dict.{assign}
use my_redis.Database.{DatabaseSnapshot}
use my_redis.Persistence.{type_string, type_list, flag_has_ttl, nanos_per_milli}

-- A read yields a value and the stream behind it.
abbrev pub Reader : Type 0 → Type 0
Reader A = Text → Option (A × Text)

module _ {A B : Type 0} where
  infixl 10 ◌>>=◌
  abbrev pub ◌>>=◌ : Reader A → (A → Reader B) → Reader B
  ◌>>=◌ m f stream = elim (m stream) [ none ↦ none | some (a, rest) ↦ f a rest ]

abbrev pub pure : {A : Type 0} → A → Reader A
pure a stream = some (a, stream)

unfoldable pub read_byte : Reader ℕ
read_byte [] = none
read_byte (b ∷ stream) = some (b, stream)

unfoldable pub read_uint32 : Reader ℕ
read_uint32 (a ∷ b ∷ c ∷ d ∷ stream) = some (a * 2 ^ 24 + b * 2 ^ 16 + c * 2 ^ 8 + d, stream)
read_uint32 _ = none

-- `static_cast<int64_t>` of 64 bits
unfoldable pub to_int64 : ℕ → ℤ
to_int64 w = if ltb w (2 ^ 63) then pos w else negsuc (2 ^ 64 - w - 1)

unfoldable pub read_int64 : Reader ℤ
unfolding to_int64
read_int64 (a ∷ b ∷ c ∷ d ∷ e ∷ f ∷ g ∷ h ∷ stream) = some (
  to_int64
      (a * 2 ^ 56 + b * 2 ^ 48 + c * 2 ^ 40 + d * 2 ^ 32 + e * 2 ^ 24 + f * 2 ^ 16 + g * 2 ^ 8 + h),
  stream,
)
read_int64 _ = none

-- `in.read(&s[0], len)`
unfoldable pub read_bytes : ℕ → Reader Text
read_bytes n stream = if leb n (length stream) then some (take n stream, drop n stream) else none

unfoldable pub read_string : Reader Text
unfolding read_uint32 read_bytes
read_string = do len ← read_uint32; read_bytes len

unfoldable pub read_elements : ℕ → Reader (List Text)
unfolding read_string
read_elements zero = pure []
read_elements (suc n) = do x ← read_string; xs ← read_elements n; pure (x ∷ xs)

unfoldable pub read_list : Reader (List Text)
unfolding read_uint32 read_elements
read_list = do elem_count ← read_uint32; read_elements elem_count

-- A key with a flag has its remaining milliseconds behind the value.
unfoldable pub read_ttl : Bool → Reader (Option ℤ)
unfolding read_int64
read_ttl false = pure none
read_ttl true = do ttl_ms ← read_int64; pure (some ttl_ms)

-- `if (ttl_ms <= 0) continue`, and else the deadline counted from `now`.
pub data Life : Type 0 where
  forever : Life
  elapsed : Life
  until : ℕ → Life

unfoldable pub life_of : ℕ → Option ℤ → Life
life_of now none = forever
life_of now (some (negsuc n)) = elapsed
life_of now (some (pos zero)) = elapsed
life_of now (some (pos (suc n))) = until (now + suc n * nanos_per_milli)

unfoldable pub add_string : Text → Text → Life → DatabaseSnapshot → DatabaseSnapshot
add_string key value elapsed snap = snap
add_string key value forever snap = record snap { store = assign key value snap.store }
add_string key value (until deadline) snap = record snap {
  store = assign key value snap.store;
  expiry = assign key deadline snap.expiry;
}

unfoldable pub add_list : Text → List Text → Life → DatabaseSnapshot → DatabaseSnapshot
add_list key l elapsed snap = snap
add_list key l forever snap = record snap { list_store = assign key l snap.list_store }
add_list key l (until deadline) snap = record snap {
  list_store = assign key l snap.list_store;
  expiry = assign key deadline snap.expiry;
}

abbrev fail : {A : Type 0} → Reader A
fail stream = none

-- The rest of an entry, behind its type tag, flags and key.
unfoldable pub read_value : ℕ → ℕ → Bool → Text → DatabaseSnapshot → Reader DatabaseSnapshot
unfolding read_string read_list read_ttl life_of add_string add_list
read_value now type_tag has_ttl key snap =
    if type_tag == type_string
    then (do
      value ← read_string
      ttl_ms ← read_ttl has_ttl
      pure (add_string key value (life_of now ttl_ms) snap))
    else if type_tag == type_list
    then (do
      l ← read_list
      ttl_ms ← read_ttl has_ttl
      pure (add_list key l (life_of now ttl_ms) snap))
    else fail

unfoldable pub read_entry : ℕ → DatabaseSnapshot → Reader DatabaseSnapshot
unfolding read_byte read_string read_value
read_entry now snap = do
  type_tag ← read_byte
  flags ← read_byte
  key ← read_string
  read_value now type_tag (not (bit_and flags flag_has_ttl == 0)) key snap

-- The loop over the entries.
unfoldable pub read_entries : ℕ → ℕ → DatabaseSnapshot → Reader DatabaseSnapshot
unfolding read_entry
read_entries zero now snap = pure snap
read_entries (suc n) now snap = do snap' ← read_entry now snap; read_entries n now snap'
