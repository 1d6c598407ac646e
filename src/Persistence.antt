-- ===== src/Persistence.antt =====
-- The dump file: include/persistence/persistence.h and src/persistence/persistence.cpp. A file is
-- the list of its bytes. This module writes; the children read, sum, and save or load a file.
pub mod Crc
pub mod Read
pub mod File
pub mod Codec
pub mod RoundTrip
pub mod Bits
pub mod Dump
pub mod Reload
pub mod Survival
pub mod Restored
pub mod Restart
pub mod Checksum
pub mod Failure
mod Tests
use Prim.Native.Nat.{bit_and}
use my_redis.Prelude.{
  ℕ, zero, suc, ◌+◌, ◌-◌, ◌*◌, ◌/◌, ◌%◌, ◌^◌, Option, none, some, List, [], ◌∷◌, ◌++◌, Bool, true,
  false, leb, if◌then◌else◌, length, is_some,
}
use my_redis.Prelude.Text.{Text, text_eq, codes}
use my_redis.Dict.{Dict, find}
use my_redis.Database.{Database, DatabaseSnapshot}

abbrev pub magic : Text
magic = codes "MYREDIS01"

abbrev pub type_string : ℕ
type_string = 0

abbrev pub type_list : ℕ
type_list = 1

abbrev pub flag_has_ttl : ℕ
flag_has_ttl = 1

-- Big-endian, most significant byte first. The value is cast to 32 bits before the call.
unfoldable pub write_uint32 : ℕ → Text
write_uint32 val =
    (val / 2 ^ 24 % 256) ∷ (val / 2 ^ 16 % 256) ∷ (val / 2 ^ 8 % 256) ∷ (val % 256) ∷ []

-- A value that is not negative, as every remaining time that is written.
unfoldable pub write_int64 : ℕ → Text
write_int64 val =
    (val / 2 ^ 56 % 256)
    ∷ (val / 2 ^ 48 % 256)
    ∷ (val / 2 ^ 40 % 256)
    ∷ (val / 2 ^ 32 % 256)
    ∷ (val / 2 ^ 24 % 256)
    ∷ (val / 2 ^ 16 % 256)
    ∷ (val / 2 ^ 8 % 256)
    ∷ (val % 256)
    ∷ []

unfoldable pub write_string : Text → Text
unfolding write_uint32
write_string s = write_uint32 (length s % 2 ^ 32) ++ s

-- `exp_it != end() && exp_it->second <= now`
unfoldable pub has_expired : ℕ → Option ℕ → Bool
has_expired now none = false
has_expired now (some deadline) = leb deadline now

abbrev pub flags_of : Option ℕ → ℕ
flags_of none = 0
flags_of (some deadline) = flag_has_ttl

abbrev pub nanos_per_milli : ℕ
nanos_per_milli = 10 ^ 6

-- The remaining whole milliseconds, for a key with a deadline.
unfoldable pub write_ttl : ℕ → Option ℕ → Text
unfolding write_int64
write_ttl now none = []
write_ttl now (some deadline) = write_int64 ((deadline - now) / nanos_per_milli)

unfoldable pub write_elements : List Text → Text
unfolding write_string
write_elements [] = []
write_elements (x ∷ xs) = write_string x ++ write_elements xs

-- What stands between the key and the time to live.
unfoldable pub write_list : List Text → Text
unfolding write_uint32 write_elements
write_list l = write_uint32 (length l % 2 ^ 32) ++ write_elements l

unfoldable pub write_entry : {V : Type 0} → ℕ → (V → Text) → ℕ → Option ℕ → Text → V → Text
unfolding write_string write_ttl
write_entry tag payload now deadline key v =
    tag ∷ (flags_of deadline ∷ (write_string key ++ (payload v ++ write_ttl now deadline)))

-- The loop over one of the two maps.
unfoldable pub write_entries : {V : Type 0} → ℕ → (V → Text) → ℕ → Dict Text ℕ → Dict Text V → Text
unfolding has_expired write_entry
write_entries tag payload now expiry [] = []
write_entries tag payload now expiry ((key, v) ∷ m) =
    let rest = write_entries tag payload now expiry m in
    let deadline = find key expiry in
    if has_expired now deadline then rest else write_entry tag payload now deadline key v ++ rest

unfoldable pub count_entries : {V : Type 0} → ℕ → Dict Text ℕ → Dict Text V → ℕ
unfolding has_expired
count_entries now expiry [] = 0
count_entries now expiry ((key, v) ∷ m) =
    let rest = count_entries now expiry m in
    if has_expired now (find key expiry) then rest else rest + 1

unfoldable pub entry_count : ℕ → DatabaseSnapshot → ℕ
unfolding count_entries
entry_count now snap =
    (count_entries now snap.expiry snap.store + count_entries now snap.expiry snap.list_store)
    % 2 ^ 32

-- All of the file but the checksum.
unfoldable pub write_snapshot : ℕ → DatabaseSnapshot → Text
unfolding entry_count write_uint32 write_entries write_string write_list
write_snapshot now snap =
    magic
    ++ (write_uint32 (entry_count now snap)
        ++ (write_entries type_string write_string now snap.expiry snap.store
            ++ write_entries type_list write_list now snap.expiry snap.list_store))
