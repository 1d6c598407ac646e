-- ===== src/Persistence/Failure.antt =====
-- The files that `Persistence::save` of src/persistence/persistence.cpp leaves.
use my_redis.Prelude.{
  arith, ℕ, ◌≤◌, ◌≡◌, ◌≢◌, Option, none, some, ◌++◌, Bool, true, false, ◌&&◌, ◌==◌, if◌then◌else◌,
  refl, Bool-cases, inl, inr, take, length, length-append, ◌∙◌, sym, ap,
}
use my_redis.Prelude.Text.{Text, text_eq, text_beq_iff, codes}
use my_redis.Dict.{find, assign, erase}
use my_redis.Dict.Laws.{find-assign, find-erase}
use my_redis.Database.{Database, get_snapshot}
use my_redis.Persistence.{write_uint32, write_snapshot}
use my_redis.Persistence.File.{
  Files, Outcome, whole, portion, tmp_path, remove_file, replace_file, checksum, append_crc, save,
}

pub tmp_path-other : (path : Text) → tmp_path path ≢ path
tmp_path-other path e =
    absurd (omega (arith, length-append path (codes ".tmp"), ap (λ (s : Text). length s) e))

-- What a change of the temporary file leaves at another path.
module _ (path tmp : Text) (other : path ≢ tmp) where
  apart : (tmp == path) ≡ false
  apart = elim (Bool-cases (tmp == path)) [
    | inl e ↦ absurd (other (sym ((text_beq_iff tmp path).0 e)))
    | inr e ↦ e
  ]

  find-assign_tmp :
      (content : Text) (files : Files) → find path (assign tmp content files) ≡ find path files
  find-assign_tmp content files = rw (find-assign tmp path content files, apart) refl

  find-remove_tmp :
      (succeeds : Bool) (files : Files)
      → find path (remove_file succeeds tmp files) ≡ find path files
  unfolding remove_file
  find-remove_tmp true files = rw (find-erase tmp path files, apart) refl
  find-remove_tmp false files = refl

  find-erase_tmp : (files : Files) → find path (erase tmp files) ≡ find path files
  find-erase_tmp files = rw (find-erase tmp path files, apart) refl

-- What the path of the dump holds once the old file is removed, or not.
abbrev pub left_over : Bool → Option Text → Option Text
left_over removed old = if removed then none else old

find-remove_file :
    (succeeds : Bool) (filepath path : Text) (files : Files)
    → find path (remove_file succeeds filepath files)
      ≡ (if filepath == path then left_over succeeds (find path files) else find path files)
unfolding remove_file
find-remove_file true filepath path files = find-erase filepath path files
find-remove_file false filepath path files = ground arith

replace_file-find :
    (o : Outcome) (filepath path content : Text) (files : Files)
    → path ≢ tmp_path filepath
    → find path (replace_file o filepath content files).1 ≡ (
        if filepath == path
        then if o.renamed then some content else left_over o.removed (find path files)
        else find path files)
unfolding replace_file
replace_file-find o filepath path content files other = elim (Bool-cases o.renamed) [
  | inl e ↦ rw e (
      find-assign filepath path content
        (erase (tmp_path filepath) (remove_file o.removed filepath files))
      ∙ ap (λ r. if filepath == path then some content else r)
          (find-erase_tmp path (tmp_path filepath) other (remove_file o.removed filepath files)
            ∙ find-remove_file o.removed filepath path files)
      ∙ ground arith)
  | inr e ↦ rw e (
      find-remove_tmp path (tmp_path filepath) other o.cleaned
        (remove_file o.removed filepath files)
      ∙ find-remove_file o.removed filepath path files)
]

-- The file of a save whose checksum is appended.
unfoldable pub dump : Outcome → ℕ → Database → Text
dump o now db =
    let body = portion o.stored (write_snapshot now (get_snapshot db)) in
    body ++ take o.crc_written (write_uint32 (checksum o body))

abbrev pub is_written : Outcome → Bool
is_written o = o.opened && (o.flushed && (o.reopened && o.appended))

append_crc-find :
    (o : Outcome) (filepath path body : Text) (files : Files)
    → path ≢ tmp_path filepath
    → find path (append_crc o filepath body files).1 ≡ (
        if o.appended && filepath == path
        then if o.renamed
          then some (body ++ take o.crc_written (write_uint32 (checksum o body)))
          else left_over o.removed (find path files)
        else find path files)
unfolding append_crc
append_crc-find o filepath path body files other =
    let content = body ++ take o.crc_written (write_uint32 (checksum o body)) in
    elim (Bool-cases o.appended) [
      | inl e ↦ rw e (
          replace_file-find o filepath path content (assign (tmp_path filepath) content files) other
          ∙ ap
              (λ r.
                if filepath == path
                then if o.renamed then some content else left_over o.removed r
                else r)
              (find-assign_tmp path (tmp_path filepath) other content files))
      | inr e ↦ rw e (find-remove_tmp path (tmp_path filepath) other o.cleaned files)
    ]

-- `save` with the bytes in front of the checksum given.
abbrev save_body : Outcome → Text → Text → Files → Bool × Files
save_body o filepath body files =
    let written = assign (tmp_path filepath) body files in
    if o.opened
    then if o.flushed
      then if o.reopened
        then append_crc o filepath body written
        else (false, remove_file o.cleaned (tmp_path filepath) written)
      else (false, remove_file o.cleaned (tmp_path filepath) written)
    else (false, files)

save_body-find :
    (o : Outcome) (filepath path body : Text) (files : Files)
    → path ≢ tmp_path filepath
    → find path (save_body o filepath body files).1 ≡ (
        if is_written o && filepath == path
        then if o.renamed
          then some (body ++ take o.crc_written (write_uint32 (checksum o body)))
          else left_over o.removed (find path files)
        else find path files)
save_body-find o filepath path body files other = ground (
  arith,
  find-assign_tmp path (tmp_path filepath) other body files,
  find-remove_tmp path (tmp_path filepath) other o.cleaned (assign (tmp_path filepath) body files),
  append_crc-find o filepath path body (assign (tmp_path filepath) body files) other,
)

save_body-succeeds :
    (o : Outcome) (filepath body : Text) (files : Files)
    → (save_body o filepath body files).0 ≡ (is_written o && o.renamed)
unfolding append_crc replace_file
save_body-succeeds o filepath body files = ground arith

-- A save succeeds exactly if it opens, writes, reopens and appends to the temporary file and renames
-- it. Its path then holds the dump, with what was stored of it and of its checksum. Where the writing
-- failed it holds the old file, if there was one; where the renaming failed it holds the old file
-- only if that could not be removed before. A file at a path other than these two stays.
pub save-find :
    (o : Outcome) (now : ℕ) (filepath path : Text) (db : Database) (files : Files)
    → path ≢ tmp_path filepath
    → ((save o now filepath db files).0 ≡ (is_written o && o.renamed))
      × (find path (save o now filepath db files).1 ≡ (
          if is_written o && filepath == path
          then if o.renamed then some (dump o now db) else left_over o.removed (find path files)
          else find path files))
unfolding save dump
save-find o now filepath path db files other = (
  save_body-succeeds o filepath (portion o.stored (write_snapshot now (get_snapshot db))) files,
  save_body-find o filepath path (portion o.stored (write_snapshot now (get_snapshot db))) files
      other,
)

-- Nothing that a save needs has failed.
pub record IsComplete (o : Outcome) : Type 0 where
  pub written : is_written o ≡ true
  pub renamed : o.renamed ≡ true
  pub stored : o.stored ≡ whole
  pub check_opened : o.check_opened ≡ true
  pub checked : o.checked ≡ whole
  pub crc_written : 4 ≤ o.crc_written
