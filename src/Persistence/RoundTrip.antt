-- ===== src/Persistence/RoundTrip.antt =====
-- The entries of a dump of src/persistence/persistence.cpp, written and read.
use Prim.Native.Nat.{bit_and}
use my_redis.Prelude.{
  ℕ, suc, ◌+◌, ◌≡◌, Option, none, some, List, [], ◌∷◌, ◌++◌, not, ◌==◌, nat_eq, if◌then◌else◌,
  arith, refl, ◌∙◌, ap, Bool-cases, inl, inr,
}
use mathlib.Core.List.{append_assoc}
use native.Mathlib.Nat.{zero-add}
use my_redis.Prelude.Text.{Text, text_eq}
use my_redis.Dict.{Dict, find}
use my_redis.Database.{DatabaseSnapshot}
use my_redis.Persistence.{
  type_string, type_list, flag_has_ttl, has_expired, write_string, write_list, write_ttl,
  write_entry, write_entries, count_entries, flags_of,
}
use my_redis.Persistence.Read.{
  ◌>>=◌, pure, read_string, read_list, read_ttl, Life, life_of, add_string, add_list, read_value,
  read_entry, read_entries,
}
use my_redis.Persistence.Codec.{
  bind_some, Short, ShortList, SoonEnough, millis_left, has_deadline, read_string-write,
  read_list-write, read_ttl-write,
}

flags_read :
    (deadline : Option ℕ)
    → not (bit_and (flags_of deadline) flag_has_ttl == 0) ≡ has_deadline deadline
flags_read none = refl
flags_read (some d) = refl

pub read_string_value :
    (now' now : ℕ) (deadline : Option ℕ) (key v rest : Text) (snap : DatabaseSnapshot)
    → Short v
    → SoonEnough now deadline
    → read_value now' type_string
        (has_deadline deadline)
        key
        snap
        (write_string v ++ (write_ttl now deadline ++ rest))
      ≡ some (add_string key v (life_of now' (millis_left now deadline)) snap, rest)
unfolding read_value
read_string_value now' now deadline key v rest snap h t =
    bind_some read_string
      (λ value. read_ttl (has_deadline deadline) >>= λ ttl_ms.
        pure (add_string key value (life_of now' ttl_ms) snap))
      (write_string v ++ (write_ttl now deadline ++ rest)) (write_ttl now deadline ++ rest) v
      (read_string-write v (write_ttl now deadline ++ rest) h)
    ∙ bind_some (read_ttl (has_deadline deadline))
        (λ ttl_ms. pure (add_string key v (life_of now' ttl_ms) snap))
        (write_ttl now deadline ++ rest) rest (millis_left now deadline)
        (read_ttl-write now deadline rest t)

pub read_list_value :
    (now' now : ℕ) (deadline : Option ℕ) (key : Text) (v : List Text) (rest : Text)
    (snap : DatabaseSnapshot)
    → ShortList v
    → SoonEnough now deadline
    → read_value now' type_list
        (has_deadline deadline)
        key
        snap
        (write_list v ++ (write_ttl now deadline ++ rest))
      ≡ some (add_list key v (life_of now' (millis_left now deadline)) snap, rest)
unfolding read_value
read_list_value now' now deadline key v rest snap h t =
    bind_some read_list
      (λ value. read_ttl (has_deadline deadline) >>= λ ttl_ms.
        pure (add_list key value (life_of now' ttl_ms) snap))
      (write_list v ++ (write_ttl now deadline ++ rest)) (write_ttl now deadline ++ rest) v
      (read_list-write v (write_ttl now deadline ++ rest) h)
    ∙ bind_some (read_ttl (has_deadline deadline))
        (λ ttl_ms. pure (add_list key v (life_of now' ttl_ms) snap))
        (write_ttl now deadline ++ rest) rest (millis_left now deadline)
        (read_ttl-write now deadline rest t)

module _ {V : Type 0} (add : Text → V → Life → DatabaseSnapshot → DatabaseSnapshot) where
  -- What a map's entries become: those that had expired at `now` are not in the file, and those with
  -- less than a millisecond left are skipped by the reader.
  unfoldable pub restored : ℕ → ℕ → Dict Text ℕ → Dict Text V → DatabaseSnapshot → DatabaseSnapshot
  restored now' now expiry [] snap = snap
  restored now' now expiry ((key, v) ∷ m) snap = restored now' now expiry m (
      if has_expired now (find key expiry)
      then snap
      else add key v (life_of now' (millis_left now (find key expiry))) snap)

module _ {V : Type 0} (Fits : V → Type 0) where
  abbrev pub AllFit : ℕ → Dict Text ℕ → Dict Text V → Type 0
  AllFit now expiry [] = Unit {0}
  AllFit now expiry ((key, v) ∷ m) =
      (Short key × Fits v × SoonEnough now (find key expiry)) × AllFit now expiry m

-- The two kinds of entries, by their tag, their payload and what reading adds.
module _ {V : Type 0} (tag : ℕ) (payload : V → Text)
    (add : Text → V → Life → DatabaseSnapshot → DatabaseSnapshot) (Fits : V → Type 0)
    (read_back : (now' now : ℕ) (deadline : Option ℕ) (key : Text) (v : V) (rest : Text)
        (snap : DatabaseSnapshot)
      → Fits v
      → SoonEnough now deadline
      → read_value now' tag
          (has_deadline deadline)
          key
          snap
          (payload v ++ (write_ttl now deadline ++ rest))
        ≡ some (add key v (life_of now' (millis_left now deadline)) snap, rest)) where
  read_entry-write :
      (now' now : ℕ) (deadline : Option ℕ) (key : Text) (v : V) (rest : Text)
      (snap : DatabaseSnapshot)
      → Short key
      → Fits v
      → SoonEnough now deadline
      → read_entry now' snap (write_entry tag payload now deadline key v ++ rest)
        ≡ some (add key v (life_of now' (millis_left now deadline)) snap, rest)
  unfolding read_entry write_entry
  read_entry-write now' now deadline key v rest snap hk hv t =
      rw
        (
          append_assoc (write_string key) (payload v ++ write_ttl now deadline) rest,
          append_assoc (payload v) (write_ttl now deadline) rest,
          flags_read deadline,
        )
        (bind_some read_string (λ key'. read_value now' tag (has_deadline deadline) key' snap)
            (write_string key ++ (payload v ++ (write_ttl now deadline ++ rest)))
            (payload v ++ (write_ttl now deadline ++ rest)) key
            (read_string-write key (payload v ++ (write_ttl now deadline ++ rest)) hk)
          ∙ read_back now' now deadline key v rest snap hv t)

  read_one_more :
      (n more now' : ℕ) (snap snap' : DatabaseSnapshot) (s t : Text)
      → read_entry now' snap s ≡ some (snap', t)
      → read_entries (n + 1 + more) now' snap s ≡ read_entries (n + more) now' snap' t
  unfolding read_entries
  read_one_more n more now' snap snap' s t e =
      ap (λ k. read_entries k now' snap s) (one_out n more)
      ∙ bind_some (read_entry now' snap) (λ z. read_entries (n + more) now' z) s t snap' e
    where
      one_out : (a b : ℕ) → a + 1 + b ≡ suc (a + b)
      one_out a b = omega arith

  pub read_entries-write :
      (now' now more : ℕ) (expiry : Dict Text ℕ) (m : Dict Text V) (rest : Text)
      (snap : DatabaseSnapshot)
      → AllFit Fits now expiry m
      → read_entries
          (count_entries now expiry m + more)
          now'
          snap
          (write_entries tag payload now expiry m ++ rest)
        ≡ read_entries more now' (restored add now' now expiry m snap) rest
  unfolding count_entries write_entries restored
  read_entries-write now' now more expiry [] rest snap h =
      ap (λ k. read_entries k now' snap rest) (zero-add more)
  read_entries-write now' now more expiry ((key, v) ∷ m) rest snap ((hk, hv, t), hs) =
      elim (Bool-cases (has_expired now (find key expiry))) [
        | inl e ↦ rw e (read_entries-write now' now more expiry m rest snap hs)
        | inr e ↦
            rw
              (
                e,
                append_assoc (write_entry tag payload now (find key expiry) key v)
                    (write_entries tag payload now expiry m) rest,
              )
              (read_one_more (count_entries now expiry m) more now' snap _ _ _ (
                  read_entry-write now' now (find key expiry) key v
                    (write_entries tag payload now expiry m ++ rest) snap hk hv t)
                ∙ read_entries-write now' now more expiry m rest _ hs)
      ]
