-- ===== src/Persistence/Restart.antt =====
-- `Persistence::save` and then `Persistence::load` of src/persistence/persistence.cpp, over the file.
use my_redis.Prelude.{
  arith, ℕ, ◌+◌, ◌-◌, ◌^◌, ◌≤◌, ◌<◌, ◌≡◌, none, some, [], ◌++◌, true, false, ltb, ◌==◌, nat_eq,
  if◌then◌else◌, refl, take, take-all, drop, length, length-append, drop-length_append, ◌∙◌, sym,
  ap, subst,
}
use mathlib.Core.List.{append-nil}
use my_redis.Prelude.Text.{Text, text_eq, text_beq_iff}
use my_redis.Dict.{find}
use my_redis.Database.{Database, DatabaseSnapshot, get_snapshot, load_snapshot}
use my_redis.Persistence.{magic, write_uint32, write_snapshot}
use my_redis.Persistence.Crc.{crc_chunk, compute_crc32}
use my_redis.Persistence.Bits.{bit_xor_bound, crc_chunk_bound}
use my_redis.Persistence.Checksum.{compute_crc32-append}
use my_redis.Persistence.Read.{read_uint32}
use my_redis.Persistence.Codec.{read_uint32-write}
use my_redis.Persistence.Dump.{IsStorable, reloaded, read_snapshot-write_snapshot}
use my_redis.Database.View.{value_of, view}
use my_redis.Database.Invariant.{IsWellFormed}
use my_redis.Database.Distinct.{IsDistinct}
use my_redis.Persistence.Restored.{
  still_there, view-reloaded, reloaded-IsWellFormed, reloaded-IsDistinct,
}
use my_redis.Persistence.Failure.{dump, IsComplete, save-find, tmp_path-other}
use my_redis.Persistence.File.{
  whole, portion, checksum, Files, Outcome, read_snapshot, load_file, load, save,
}

-- A file whose last four bytes hold the checksum of the bytes in front of them.
load_file-read :
    (now' size sum : ℕ) (file : Text)
    → length file ≡ size + 4
    → 13 ≤ size
    → read_uint32 (drop size file) ≡ some (sum, [])
    → compute_crc32 file size ≡ sum
    → load_file now' file ≡ read_snapshot now' file
unfolding load_file
load_file-read now' size sum file size_of long stored crc =
    let short : ltb (length file) (length magic + 4 + 4) ≡ false = ground arith in
    let front : length file - 4 ≡ size = omega arith in
    let same : (sum == sum) ≡ true = ground arith in
    rw (short, front, stored, front, crc, same) refl

crc-append :
    (body tail : Text)
    → compute_crc32 (body ++ tail) (length body) ≡ compute_crc32 body (length body)
crc-append body tail =
    compute_crc32-append body tail
    ∙ sym (compute_crc32-append body [])
    ∙ ap (λ file. compute_crc32 file (length body)) (append-nil body)

crc_bound : (body : Text) → compute_crc32 body (length body) < 2 ^ 32
crc_bound body =
    subst (λ sum. sum < 2 ^ 32) (sym (sym (crc-append body []) ∙ compute_crc32-append body []))
      (bit_xor_bound (crc_chunk 0xFFFFFFFF body) 0xFFFFFFFF
        (crc_chunk_bound 0xFFFFFFFF body (omega arith)) (omega arith))

length-write : (n : ℕ) → length (write_uint32 n) ≡ 4
unfolding write_uint32
length-write n = refl

stored_sum : (n : ℕ) → n < 2 ^ 32 → read_uint32 (write_uint32 n) ≡ some (n, [])
stored_sum n h = ap read_uint32 (sym (append-nil (write_uint32 n))) ∙ read_uint32-write n [] h

sealed :
    (now' sum : ℕ) (body : Text)
    → 13 ≤ length body
    → sum < 2 ^ 32
    → compute_crc32 (body ++ write_uint32 sum) (length body) ≡ sum
    → load_file now' (body ++ write_uint32 sum) ≡ read_snapshot now' (body ++ write_uint32 sum)
sealed now' sum body long fits crc =
    load_file-read now' (length body) sum (body ++ write_uint32 sum)
      (length-append body (write_uint32 sum) ∙ ap (λ n. length body + n) (length-write sum)) long
      (ap read_uint32 (drop-length_append body (write_uint32 sum)) ∙ stored_sum sum fits) crc

abbrev pub checked : Text → Text
checked body = body ++ write_uint32 (compute_crc32 body (length body))

load_file-checked :
    (now' : ℕ) (body : Text)
    → 13 ≤ length body
    → load_file now' (checked body) ≡ read_snapshot now' (checked body)
load_file-checked now' body long =
    sealed now' (compute_crc32 body (length body)) body long (crc_bound body)
      (crc-append body (write_uint32 (compute_crc32 body (length body))))

write_snapshot-long : (now : ℕ) (snap : DatabaseSnapshot) → 13 ≤ length (write_snapshot now snap)
unfolding write_snapshot write_uint32
write_snapshot-long now snap = omega arith

checksum-whole :
    (o : Outcome) (body : Text)
    → o.check_opened ≡ true
    → o.checked ≡ whole
    → checksum o body ≡ compute_crc32 body (length body)
unfolding checksum
checksum-whole o body e f = rw (e, f) refl

dump-whole :
    (o : Outcome) (now : ℕ) (db : Database)
    → IsComplete o
    → dump o now db ≡ checked (write_snapshot now (get_snapshot db))
unfolding dump
dump-whole o now db h =
    let body = write_snapshot now (get_snapshot db) in
    let crc = compute_crc32 body (length body) in
    ap (λ e. portion e body ++ take o.crc_written (write_uint32 (checksum o (portion e body))))
      h.stored
    ∙ ap (λ n. body ++ take o.crc_written (write_uint32 n))
        (checksum-whole o body h.check_opened h.checked)
    ∙ ap (λ s. body ++ s)
        (take-all o.crc_written (write_uint32 crc) (omega (arith, h.crc_written, length-write crc)))

load-found :
    (now' : ℕ) (path file : Text) (files : Files) (db : Database) (snap : DatabaseSnapshot)
    → find path files ≡ some file
    → load_file now' file ≡ some snap
    → load now' path files db ≡ (true, load_snapshot snap)
unfolding load
load-found now' path file files db snap e f = rw (load, e, f) refl

found :
    (o : Outcome) (now : ℕ) (path : Text) (db : Database) (files : Files)
    → IsComplete o
    → find path (save o now path db files).1 ≡ some (checked (write_snapshot now (get_snapshot db)))
found o now path db files complete =
    (save-find o now path path db files (λ e. tmp_path-other path (sym e))).1
    ∙ rw (complete.written, (text_beq_iff path path).1 refl, complete.renamed) refl
    ∙ ap some (dump-whole o now db complete)

load_file-dump :
    (now' now : ℕ) (db : Database)
    → IsStorable now (get_snapshot db)
    → load_file now' (checked (write_snapshot now (get_snapshot db)))
      ≡ some (reloaded now' now (get_snapshot db))
load_file-dump now' now db fits =
    load_file-checked now' (write_snapshot now (get_snapshot db))
      (write_snapshot-long now (get_snapshot db))
    ∙ read_snapshot-write_snapshot now' now (get_snapshot db) _ fits

load-save :
    (o : Outcome) (now now' : ℕ) (path : Text) (db other : Database) (files : Files)
    → IsStorable now (get_snapshot db)
    → IsComplete o
    → load now' path (save o now path db files).1 other
      ≡ (true, load_snapshot (reloaded now' now (get_snapshot db)))
load-save o now now' path db other files fits complete =
    load-found now' path (checked (write_snapshot now (get_snapshot db)))
      (save o now path db files).1 other (reloaded now' now (get_snapshot db))
      (found o now path db files complete) (load_file-dump now' now db fits)

-- A restart. A dump that `save` has written whole, its checksum included, and renamed, no call that
-- it needs having failed, is accepted by `load`, whatever the database held before, and each key then shows what it did at the save, until
-- the whole milliseconds that its deadline was away are over, counted from the load: where the maps
-- hold no key twice and their sizes fit the fields of the dump.
pub view-load-save :
    (o : Outcome) (now now' t : ℕ) (path key : Text) (db other : Database) (files : Files)
    → IsDistinct db
    → IsStorable now (get_snapshot db)
    → IsComplete o
    → now' ≤ t
    → ((load now' path (save o now path db files).1 other).0 ≡ true)
      × (view t key (load now' path (save o now path db files).1 other).1 ≡ (
          if still_there now' now t (find key db.expiry)
          then value_of (find key db.store) (find key db.list_store)
          else none))
view-load-save o now now' t path key db other files distinct fits complete later =
    let loaded = load-save o now now' path db other files fits complete in
    (
      ap (λ r. r.0) loaded,
      ap (λ r. view t key r.1) loaded ∙ view-reloaded now' now t key db distinct later,
    )

-- What a restart keeps of the maps.
pub load-save-IsWellFormed :
    (o : Outcome) (now now' : ℕ) (path : Text) (db other : Database) (files : Files)
    → IsDistinct db
    → IsWellFormed db
    → IsStorable now (get_snapshot db)
    → IsComplete o
    → IsWellFormed (load now' path (save o now path db files).1 other).1
      × IsDistinct (load now' path (save o now path db files).1 other).1
load-save-IsWellFormed o now now' path db other files distinct formed fits complete =
    subst (λ r. IsWellFormed r.1 × IsDistinct r.1)
      (sym (load-save o now now' path db other files fits complete))
      (
        reloaded-IsWellFormed now' now db distinct formed,
        reloaded-IsDistinct now' now (get_snapshot db),
      )
