-- ===== src/Persistence/Dump.antt =====
-- A whole dump of src/persistence/persistence.cpp without its checksum, written and read.
use my_redis.Prelude.{ℕ, ◌+◌, ◌^◌, ◌<◌, ◌≡◌, some, ◌++◌, arith, refl, ◌∙◌, ap}
use mathlib.Core.List.{append_assoc}
use my_redis.Prelude.Text.{Text, text_eq, text_beq}
use my_redis.Database.{DatabaseSnapshot}
use my_redis.Persistence.{
  magic, type_string, type_list, write_uint32, write_string, write_list, write_entries,
  count_entries, entry_count, write_snapshot,
}
use my_redis.Persistence.Read.{read_entries, add_string, add_list}
use my_redis.Persistence.File.{read_snapshot, empty_snapshot}
use my_redis.Persistence.Codec.{Short, ShortList, read_uint32-write}
use my_redis.Persistence.RoundTrip.{
  read_entries-write, restored, AllFit, read_string_value, read_list_value,
}

-- The keys and the values fit the fields of a dump.
abbrev pub IsStorable : ℕ → DatabaseSnapshot → Type 0
IsStorable now snap =
    (count_entries now snap.expiry snap.store + count_entries now snap.expiry snap.list_store
      < 2 ^ 32)
    × (AllFit Short now snap.expiry snap.store × AllFit ShortList now snap.expiry snap.list_store)

-- The snapshot that a load at `now'` makes of one that was saved at `now`.
unfoldable pub reloaded : ℕ → ℕ → DatabaseSnapshot → DatabaseSnapshot
reloaded now' now snap =
    restored add_list now' now snap.expiry snap.list_store
      (restored add_string now' now snap.expiry snap.store empty_snapshot)

read_both :
    (now' now : ℕ) (snap : DatabaseSnapshot) (rest : Text)
    → IsStorable now snap
    → read_entries (entry_count now snap) now' empty_snapshot (
        write_entries type_string write_string now snap.expiry snap.store
        ++ (write_entries type_list write_list now snap.expiry snap.list_store ++ rest))
      ≡ some (reloaded now' now snap, rest)
unfolding entry_count reloaded
read_both now' now snap rest (few, (strings, lists)) =
    ap
      (λ n. read_entries n now' empty_snapshot (
        write_entries type_string write_string now snap.expiry snap.store
        ++ (write_entries type_list write_list now snap.expiry snap.list_store ++ rest)))
      count
    ∙ read_entries-write type_string write_string add_string Short read_string_value now' now
        (b + 0) snap.expiry snap.store _ empty_snapshot strings
    ∙ read_entries-write type_list write_list add_list ShortList read_list_value now' now 0
        snap.expiry snap.list_store rest _ lists
    ∙ nothing_left (reloaded now' now snap)
  where
    a : ℕ
    a = count_entries now snap.expiry snap.store

    b : ℕ
    b = count_entries now snap.expiry snap.list_store

    count : entry_count now snap ≡ a + (b + 0)
    count = omega arith

    nothing_left : (s : DatabaseSnapshot) → read_entries 0 now' s rest ≡ some (s, rest)
    nothing_left s = unfold read_entries in refl

-- What follows the magic bytes and the count of entries.
read_header :
    (now' n : ℕ) (stream rest : Text) (snap : DatabaseSnapshot)
    → n < 2 ^ 32
    → read_entries n now' empty_snapshot stream ≡ some (snap, rest)
    → read_snapshot now' (magic ++ (write_uint32 n ++ stream)) ≡ some snap
unfolding read_snapshot text_beq
read_header now' n stream rest snap small e = rw (read_uint32-write n stream small, e)

split_tail :
    (now : ℕ) (snap : DatabaseSnapshot) (tail : Text)
    → write_snapshot now snap ++ tail
      ≡ magic
        ++ (write_uint32 (entry_count now snap)
            ++ (write_entries type_string write_string now snap.expiry snap.store
                ++ (write_entries type_list write_list now snap.expiry snap.list_store ++ tail)))
unfolding write_snapshot
split_tail now snap tail =
    ap (λ z. magic ++ (write_uint32 (entry_count now snap) ++ z))
      (append_assoc (write_entries type_string write_string now snap.expiry snap.store)
        (write_entries type_list write_list now snap.expiry snap.list_store) tail)

count_fits : (now : ℕ) (snap : DatabaseSnapshot) → entry_count now snap < 2 ^ 32
unfolding entry_count
count_fits now snap = omega arith

-- A dump written at one instant and read at any other is the snapshot with the keys that had not
-- expired, whatever follows it, where the sizes fit the fields of the dump.
pub read_snapshot-write_snapshot :
    (now' now : ℕ) (snap : DatabaseSnapshot) (tail : Text)
    → IsStorable now snap
    → read_snapshot now' (write_snapshot now snap ++ tail) ≡ some (reloaded now' now snap)
read_snapshot-write_snapshot now' now snap tail h =
    ap (λ file. read_snapshot now' file) (split_tail now snap tail)
    ∙ read_header now' (entry_count now snap) _ tail (reloaded now' now snap) (count_fits now snap)
        (read_both now' now snap tail h)
