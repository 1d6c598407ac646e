-- ===== src/Persistence/Tests.antt =====
-- A small database that is dumped and read, and the theorems of this part at it.
use my_redis.Prelude.{◌≡◌, refl, arith, none, some, [], ◌∷◌, false, ◌&&◌, ◌==◌, if◌then◌else◌, sym}
use my_redis.Prelude.Text.{Text, codes, text_beq, text_eq}
use my_redis.Dict.{find, assign}
use my_redis.Database.{DatabaseSnapshot, empty_database}
use my_redis.Persistence.{count_entries, has_expired}
use my_redis.Persistence.Read.{add_list, add_string, life_of}
use my_redis.Persistence.RoundTrip.{restored}
use my_redis.Persistence.File.{save, all_well, Outcome}
use my_redis.Persistence.Failure.{
  save-find, tmp_path-other, dump, is_written, left_over, IsComplete,
}
use my_redis.Persistence.Crc.{
  compute_crc32, crc_loop, crc_chunk, crc_step, generate_crc32_entry, crc_bits,
}
use my_redis.Prelude.{true, if◌then◌else◌}
use my_redis.Database.{Database, get_snapshot}
use my_redis.Database.View.{view, value_of}
use my_redis.Database.Distinct.{IsDistinct}
use my_redis.Persistence.File.{load}
use my_redis.Persistence.Restored.{still_there}
use my_redis.Persistence.Restart.{view-load-save}
use my_redis.Persistence.Dump.{IsStorable, reloaded}

-- At 2 seconds "old" has expired and "a" has 3 seconds left.
abbrev saved : DatabaseSnapshot
saved = record {
  store = (codes "a", codes "one") ∷ (codes "old", codes "x") ∷ [];
  list_store = (codes "b", codes "x" ∷ codes "y" ∷ []) ∷ [];
  expiry = (codes "a", 5000000000) ∷ (codes "old", 1000000000) ∷ [];
}

abbrev restarted : DatabaseSnapshot
restarted = record {
  store = (codes "a", codes "one") ∷ [];
  list_store = (codes "b", codes "x" ∷ codes "y" ∷ []) ∷ [];
  expiry = (codes "a", 3000000007) ∷ [];
}

saved-IsStorable : IsStorable 2000000000 saved
unfolding count_entries find text_beq
saved-IsStorable = (
  omega arith,
  (
    ((omega arith, omega arith, omega arith), ((omega arith, omega arith, omega arith), tt)),
    ((omega arith, (omega arith, (omega arith, (omega arith, tt))), tt), tt),
  ),
)

reloaded-saved : reloaded 7 2000000000 saved ≡ restarted
unfolding reloaded restored has_expired add_list add_string life_of find assign text_beq
reloaded-saved = refl

-- The old dump is gone, and there is no new one.
abbrev not_renamed : Outcome
not_renamed = record all_well { renamed = false }

abbrev dump_path : Text
dump_path = codes "dump.rdb"

save-find_example :
    ((save not_renamed 5 dump_path empty_database ((dump_path, codes "old") ∷ [])).0
      ≡ (is_written not_renamed && false))
    × (find dump_path
          (save not_renamed 5 dump_path empty_database ((dump_path, codes "old") ∷ [])).1
        ≡ (if is_written not_renamed && dump_path == dump_path
            then if false
              then some (dump not_renamed 5 empty_database)
              else left_over true (find dump_path ((dump_path, codes "old") ∷ []))
            else find dump_path ((dump_path, codes "old") ∷ [])))
save-find_example =
    save-find not_renamed 5 dump_path dump_path empty_database ((dump_path, codes "old") ∷ [])
      (λ e. tmp_path-other dump_path (sym e))

-- The check value of this CRC-32.
check_value : compute_crc32 (codes "123456789") 9 ≡ 0xCBF43926
unfolding compute_crc32 crc_loop crc_chunk crc_step generate_crc32_entry crc_bits
check_value = refl

abbrev running : Database
running = record { store = saved.store; list_store = saved.list_store; expiry = saved.expiry }

running-IsDistinct : IsDistinct running
unfolding find text_beq
running-IsDistinct = record {
  store = (refl, (refl, tt));
  list_store = (refl, tt);
  expiry = (refl, (refl, tt));
}

all_well-IsComplete : IsComplete all_well
all_well-IsComplete = record {
  written = refl;
  renamed = refl;
  stored = refl;
  check_opened = refl;
  checked = refl;
  crc_written = omega arith;
}

view-load-save_example :
    ((load 7 dump_path (save all_well 2000000000 dump_path running []).1 empty_database).0 ≡ true)
    × (view 9
          (codes "a")
          (load 7 dump_path (save all_well 2000000000 dump_path running []).1 empty_database).1
        ≡ (if still_there 7 2000000000 9 (find (codes "a") running.expiry)
            then value_of (find (codes "a") running.store) (find (codes "a") running.list_store)
            else none))
unfolding get_snapshot
view-load-save_example =
    view-load-save all_well 2000000000 7 9 dump_path (codes "a") running empty_database []
      running-IsDistinct saved-IsStorable all_well-IsComplete (omega arith)
