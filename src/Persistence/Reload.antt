-- ===== src/Persistence/Reload.antt =====
-- What the maps hold once a dump of src/persistence/persistence.cpp is read, key by key.
use my_redis.Prelude.{
  arith, ℕ, ◌≡◌, Option, none, some, [], ◌∷◌, true, ◌==◌, if◌then◌else◌, refl, Bool-cases, inl, inr,
  sym, ap, subst, ◌∙◌,
}
use my_redis.Prelude.Text.{Text, text_eq, text_beq_iff}
use my_redis.Dict.{Dict, find}
use my_redis.Dict.Distinct.{HasDistinctKeys}
use my_redis.Database.{DatabaseSnapshot}
use my_redis.Persistence.{has_expired}
use my_redis.Persistence.Read.{Life, forever, elapsed, until, life_of}
use my_redis.Persistence.Codec.{millis_left}
use my_redis.Persistence.RoundTrip.{restored}

abbrev pub kept : {V : Type 0} → Life → Option V → Option V → Option V
kept elapsed v old = old
kept forever none old = old
kept forever (some v) old = some v
kept (until d) none old = old
kept (until d) (some v) old = some v

abbrev pub renewed : {V : Type 0} → Life → Option V → Option ℕ → Option ℕ
renewed (until d) (some v) old = some d
renewed _ _ old = old

-- A key whose deadline has passed has no millisecond left.
life_of_expired :
    (now' now : ℕ) (deadline : Option ℕ)
    → has_expired now deadline ≡ true
    → life_of now' (millis_left now deadline) ≡ elapsed
unfolding has_expired life_of
life_of_expired now' now none h = absurd (ground arith)
life_of_expired now' now (some d) h = ground arith

-- What an entry does to one of the maps, read at one key: `change` of its life, its value and what
-- the map held.
module _ {V W : Type 0} (change : Life → Option V → Option W → Option W)
    (change_none : (life : Life) (old : Option W) → change life none old ≡ old)
    (change_elapsed : (v : Option V) (old : Option W) → change elapsed v old ≡ old)
    (add : Text → V → Life → DatabaseSnapshot → DatabaseSnapshot)
    (part : DatabaseSnapshot → Dict Text W)
    (part-add : (key j : Text) (v : V) (life : Life) (snap : DatabaseSnapshot)
      → find j (part (add key v life snap))
        ≡ (if key == j then change life (some v) (find j (part snap)) else find j (part snap)))
    (now' now : ℕ) (expiry : Dict Text ℕ) where
  abbrev life : Text → Life
  life key = life_of now' (millis_left now (find key expiry))

  part-entry :
      (key j : Text) (v : V) (snap : DatabaseSnapshot)
      → find j
          (part (if has_expired now (find key expiry) then snap else add key v (life key) snap))
        ≡ (if key == j then change (life key) (some v) (find j (part snap)) else find j (part snap))
  part-entry key j v snap = elim (Bool-cases (has_expired now (find key expiry))) [
    | inl e ↦
        rw
          (
            e,
            life_of_expired now' now (find key expiry) e,
            change_elapsed (some v) (find j (part snap)),
          )
          (ground arith)
    | inr e ↦ rw e (part-add key j v (life key) snap)
  ]

  change_twice :
      (key j : Text) (v : V) (o : Option V) (old : Option W)
      → (key ≡ j → o ≡ none)
      → change (life j) o (if key == j then change (life key) (some v) old else old)
        ≡ change (life j) (if key == j then some v else o) old
  change_twice key j v o old apart = elim (Bool-cases (key == j)) [
    | inl e ↦
        let same : key ≡ j = (text_beq_iff key j).0 e in
        rw (e, apart same)
          (change_none (life j) (change (life key) (some v) old)
            ∙ ap (λ i. change (life i) (some v) old) same)
    | inr e ↦ rw e refl
  ]

  pub part-restored :
      (m : Dict Text V) (snap : DatabaseSnapshot) (j : Text)
      → HasDistinctKeys m
      → find j (part (restored add now' now expiry m snap))
        ≡ change (life j) (find j m) (find j (part snap))
  unfolding restored find
  part-restored [] snap j h = sym (change_none (life j) (find j (part snap)))
  part-restored ((key, v) ∷ m) snap j (h, hs) =
      part-restored m
        (if has_expired now (find key expiry) then snap else add key v (life key) snap) j hs
      ∙ ap (λ o. change (life j) (find j m) o) (part-entry key j v snap)
      ∙ change_twice key j v (find j m) (find j (part snap))
          (λ same. subst (λ i. find i m ≡ none) same h)
