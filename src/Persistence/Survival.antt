-- ===== src/Persistence/Survival.antt =====
-- The database that a dump of src/persistence/persistence.cpp brings back.
use my_redis.Prelude.{
  ℕ, ◌≡◌, Option, none, some, List, Bool, true, false, ◌==◌, if◌then◌else◌, refl, ap, ◌∙◌,
}
use my_redis.Prelude.Text.{Text, text_eq}
use my_redis.Dict.{find}
use my_redis.Dict.Laws.{find-assign}
use my_redis.Database.{Database, DatabaseSnapshot, get_snapshot}
use my_redis.Database.Distinct.{IsDistinct}
use my_redis.Persistence.Read.{Life, forever, elapsed, until, life_of, add_string, add_list}
use my_redis.Persistence.File.{empty_snapshot}
use my_redis.Persistence.Codec.{millis_left}
use my_redis.Persistence.RoundTrip.{restored}
use my_redis.Persistence.Dump.{reloaded}
use my_redis.Persistence.Reload.{kept, renewed, part-restored}

abbrev unchanged : {V W : Type 0} → Life → Option V → Option W → Option W
unchanged life v old = old

kept-none : {V : Type 0} → (life : Life) (old : Option V) → kept life none old ≡ old
kept-none forever old = refl
kept-none elapsed old = refl
kept-none (until d) old = refl

renewed-none : (V : Type 0) (life : Life) (old : Option ℕ) → renewed {V = V} life none old ≡ old
renewed-none V forever old = refl
renewed-none V elapsed old = refl
renewed-none V (until d) old = refl

renewed_elapsed : {V : Type 0} → (v : Option V) (old : Option ℕ) → renewed elapsed v old ≡ old
renewed_elapsed none old = refl
renewed_elapsed (some v) old = refl

same_either_way : {A : Type 0} → (b : Bool) (a : A) → a ≡ (if b then a else a)
same_either_way true a = refl
same_either_way false a = refl

-- A reading of the entries of one kind: what it adds, to which map.
module _ (key j : Text) (snap : DatabaseSnapshot) where
  store-add_string :
      (v : Text) (life : Life)
      → find j (add_string key v life snap).store
        ≡ (if key == j then kept life (some v) (find j snap.store) else find j snap.store)
  unfolding add_string
  store-add_string v forever = find-assign key j v snap.store
  store-add_string v elapsed = same_either_way (key == j) (find j snap.store)
  store-add_string v (until d) = find-assign key j v snap.store

  list_store-add_string :
      (v : Text) (life : Life)
      → find j (add_string key v life snap).list_store
        ≡ (if key == j then find j snap.list_store else find j snap.list_store)
  unfolding add_string
  list_store-add_string v forever = same_either_way (key == j) (find j snap.list_store)
  list_store-add_string v elapsed = same_either_way (key == j) (find j snap.list_store)
  list_store-add_string v (until d) = same_either_way (key == j) (find j snap.list_store)

  expiry-add_string :
      (v : Text) (life : Life)
      → find j (add_string key v life snap).expiry
        ≡ (if key == j then renewed life (some v) (find j snap.expiry) else find j snap.expiry)
  unfolding add_string
  expiry-add_string v forever = same_either_way (key == j) (find j snap.expiry)
  expiry-add_string v elapsed = same_either_way (key == j) (find j snap.expiry)
  expiry-add_string v (until d) = find-assign key j d snap.expiry

  list_store-add_list :
      (v : List Text) (life : Life)
      → find j (add_list key v life snap).list_store
        ≡ (if key == j then kept life (some v) (find j snap.list_store) else find j snap.list_store)
  unfolding add_list
  list_store-add_list v forever = find-assign key j v snap.list_store
  list_store-add_list v elapsed = same_either_way (key == j) (find j snap.list_store)
  list_store-add_list v (until d) = find-assign key j v snap.list_store

  store-add_list :
      (v : List Text) (life : Life)
      → find j (add_list key v life snap).store
        ≡ (if key == j then find j snap.store else find j snap.store)
  unfolding add_list
  store-add_list v forever = same_either_way (key == j) (find j snap.store)
  store-add_list v elapsed = same_either_way (key == j) (find j snap.store)
  store-add_list v (until d) = same_either_way (key == j) (find j snap.store)

  expiry-add_list :
      (v : List Text) (life : Life)
      → find j (add_list key v life snap).expiry
        ≡ (if key == j then renewed life (some v) (find j snap.expiry) else find j snap.expiry)
  unfolding add_list
  expiry-add_list v forever = same_either_way (key == j) (find j snap.expiry)
  expiry-add_list v elapsed = same_either_way (key == j) (find j snap.expiry)
  expiry-add_list v (until d) = find-assign key j d snap.expiry

module _ (now' now : ℕ) (db : Database) (distinct : IsDistinct db) (j : Text) where
  abbrev life : Life
  life = life_of now' (millis_left now (find j db.expiry))

  abbrev strings : DatabaseSnapshot
  strings = restored add_string now' now db.expiry db.store empty_snapshot

  pub store-reloaded :
      find j (reloaded now' now (get_snapshot db)).store ≡ kept life (find j db.store) none
  unfolding reloaded get_snapshot find
  store-reloaded =
      part-restored unchanged (λ l old. refl) (λ v old. refl) add_list (λ s. s.store)
        (λ key j v l snap. store-add_list key j snap v l) now' now db.expiry db.list_store strings j
        distinct.list_store
      ∙ part-restored kept kept-none (λ v old. refl) add_string (λ s. s.store)
          (λ key j v l snap. store-add_string key j snap v l) now' now db.expiry db.store
          empty_snapshot j distinct.store

  pub list_store-reloaded :
      find j (reloaded now' now (get_snapshot db)).list_store
      ≡ kept life (find j db.list_store) none
  unfolding reloaded get_snapshot find
  list_store-reloaded =
      part-restored kept kept-none (λ v old. refl) add_list (λ s. s.list_store)
        (λ key j v l snap. list_store-add_list key j snap v l) now' now db.expiry db.list_store
        strings j distinct.list_store
      ∙ ap (kept life (find j db.list_store)) (
          part-restored unchanged (λ l old. refl) (λ v old. refl) add_string (λ s. s.list_store)
            (λ key j v l snap. list_store-add_string key j snap v l) now' now db.expiry db.store
            empty_snapshot j distinct.store)

  pub expiry-reloaded :
      find j (reloaded now' now (get_snapshot db)).expiry
      ≡ renewed life (find j db.list_store) (renewed life (find j db.store) none)
  unfolding reloaded get_snapshot find
  expiry-reloaded =
      part-restored renewed (renewed-none (List Text)) renewed_elapsed add_list (λ s. s.expiry)
        (λ key j v l snap. expiry-add_list key j snap v l) now' now db.expiry db.list_store strings
        j distinct.list_store
      ∙ ap (renewed life (find j db.list_store)) (
          part-restored renewed (renewed-none Text) renewed_elapsed add_string (λ s. s.expiry)
            (λ key j v l snap. expiry-add_string key j snap v l) now' now db.expiry db.store
            empty_snapshot j distinct.store)
