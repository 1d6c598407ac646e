-- ===== src/Persistence/File.antt =====
-- `Persistence::save` and `Persistence::load` of src/persistence/persistence.cpp over a file
-- system: the files that there are, by their paths, and the operations that can fail.
use my_redis.Prelude.{
  ℕ, ◌+◌, ◌-◌, Option, none, some, [], ◌++◌, Bool, true, false, ltb, ◌==◌, nat_eq, if◌then◌else◌,
  take, drop, length,
}
use my_redis.Prelude.Text.{Text, text_eq, codes}
use my_redis.Dict.{Dict, find, assign, erase}
use my_redis.Database.{Database, DatabaseSnapshot, get_snapshot, load_snapshot}
use my_redis.Persistence.{magic, write_uint32, write_snapshot}
use my_redis.Persistence.Crc.{compute_crc32}
use my_redis.Persistence.Read.{read_uint32, read_entries}

abbrev pub Files : Type 0
Files = Dict Text Text

-- How much of some bytes gets through.
pub data Extent : Type 0 where
  whole : Extent
  up_to : ℕ → Extent

abbrev pub portion : Extent → Text → Text
portion whole s = s
portion (up_to n) s = take n s

-- How the calls of one `save` end: they are the operating system's. `stored` is what the file has
-- once it is closed, which the source does not check; `check_opened` and `checked` are the file that
-- `compute_crc32` opens and reads, `crc_written` the bytes of the checksum that are appended,
-- `removed` and `cleaned` the removals of the old file and of the temporary one.
pub record Outcome : Type 0 where
  pub opened : Bool
  pub flushed : Bool
  pub stored : Extent
  pub reopened : Bool
  pub check_opened : Bool
  pub checked : Extent
  pub appended : Bool
  pub crc_written : ℕ
  pub removed : Bool
  pub renamed : Bool
  pub cleaned : Bool

abbrev pub all_well : Outcome
all_well = record {
  opened = true;
  flushed = true;
  stored = whole;
  reopened = true;
  check_opened = true;
  checked = whole;
  appended = true;
  crc_written = 4;
  removed = true;
  renamed = true;
  cleaned = true;
}

abbrev pub tmp_path : Text → Text
tmp_path filepath = filepath ++ codes ".tmp"

-- `remove(path)`, which leaves the file where it fails.
unfoldable pub remove_file : Bool → Text → Files → Files
remove_file succeeds path files = if succeeds then erase path files else files

-- `remove(filepath)`, then `rename(tmp_path, filepath)`, which moves what `tmp_path` holds, and
-- `remove(tmp_path)` where it fails.
unfoldable pub replace_file : Outcome → Text → Text → Files → Bool × Files
unfolding remove_file
replace_file o filepath content files =
    let removed = remove_file o.removed filepath files in
    if o.renamed
    then (true, assign filepath content (erase (tmp_path filepath) removed))
    else (false, remove_file o.cleaned (tmp_path filepath) removed)

-- `compute_crc32(tmp_path, data_size)`: 0 where the file cannot be opened, and the sum of the bytes
-- that it can read.
unfoldable pub checksum : Outcome → Text → ℕ
checksum o body = if o.check_opened then compute_crc32 (portion o.checked body) (length body) else 0

-- The checksum is appended with no check of the stream: `crc_written` of its bytes get there.
unfoldable pub append_crc : Outcome → Text → Text → Files → Bool × Files
unfolding replace_file checksum
append_crc o filepath body files =
    let content = body ++ take o.crc_written (write_uint32 (checksum o body)) in
    if o.appended
    then replace_file o filepath content (assign (tmp_path filepath) content files)
    else (false, remove_file o.cleaned (tmp_path filepath) files)

-- The temporary file has what is stored of the dump.
unfoldable pub save : Outcome → ℕ → Text → Database → Files → Bool × Files
unfolding get_snapshot write_snapshot append_crc
save o now filepath db files =
    let body = portion o.stored (write_snapshot now (get_snapshot db)) in
    let written = assign (tmp_path filepath) body files in
    if o.opened
    then if o.flushed
      then if o.reopened
        then append_crc o filepath body written
        else (false, remove_file o.cleaned (tmp_path filepath) written)
      else (false, remove_file o.cleaned (tmp_path filepath) written)
    else (false, files)

abbrev pub empty_snapshot : DatabaseSnapshot
empty_snapshot = record { store = []; list_store = []; expiry = [] }

-- The part of `load` behind the checksum, from the start of the file.
unfoldable pub read_snapshot : ℕ → Text → Option DatabaseSnapshot
unfolding read_uint32 read_entries
read_snapshot now file =
    if take (length magic) file == magic
    then elim (read_uint32 (drop (length magic) file)) [
      | none ↦ none
      | some (n, stream) ↦ elim (read_entries n now empty_snapshot stream) [
        | none ↦ none
        | some (snap, rest) ↦ some snap
      ]
    ]
    else none

unfoldable pub load_file : ℕ → Text → Option DatabaseSnapshot
unfolding compute_crc32 read_snapshot
load_file now file =
    if ltb (length file) (length magic + 4 + 4)
    then none
    else let data_size = length file - 4 in
      elim (read_uint32 (drop data_size file)) [
        | none ↦ none
        | some (stored_crc, rest) ↦
            if compute_crc32 file data_size == stored_crc then read_snapshot now file else none
      ]

-- A load that fails leaves the database alone.
unfoldable pub load : ℕ → Text → Files → Database → Bool × Database
unfolding load_file load_snapshot
load now filepath files db = elim (find filepath files) [
  | none ↦ (false, db)
  | some file ↦ elim (load_file now file) [
    | none ↦ (false, db)
    | some snap ↦ (true, load_snapshot snap)
  ]
]
