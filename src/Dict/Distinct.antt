-- ===== src/Dict/Distinct.antt =====
-- Maps as lists whose keys are distinct, and the operations on them.
use my_redis.Prelude.{ℕ, zero, suc, take, ◌≡◌, refl, none, some, [], ◌∷◌, Eq, arith}
use my_redis.Dict.{Dict, find, assign, erase}
use my_redis.Dict.Laws.{find-assign, find-erase}

module _ {K V : Type 0} ⦃e : Eq K⦄ where
  abbrev pub HasDistinctKeys : Dict K V → Type 0
  HasDistinctKeys [] = Unit {0}
  HasDistinctKeys ((k, v) ∷ m) = (find k m ≡ none) × HasDistinctKeys m

  pub assign-HasDistinctKeys :
      (k : K) (v : V) (m : Dict K V) → HasDistinctKeys m → HasDistinctKeys (assign k v m)
  unfolding assign
  assign-HasDistinctKeys k v [] h = unfold find in (refl, tt)
  assign-HasDistinctKeys k v ((j, w) ∷ m) (h, hs) =
      ground
        (arith, assign-HasDistinctKeys k v m hs, find-assign k j v m, e.beq_iff j k, e.beq_iff k j)

  pub erase-HasDistinctKeys :
      (k : K) (m : Dict K V) → HasDistinctKeys m → HasDistinctKeys (erase k m)
  unfolding erase
  erase-HasDistinctKeys k [] h = tt
  erase-HasDistinctKeys k ((j, w) ∷ m) (h, hs) =
      ground (arith, erase-HasDistinctKeys k m hs, find-erase k j m)

  abbrev pub Listed : Dict K V → Dict K V → Type 0
  Listed m [] = Unit {0}
  Listed m ((k, v) ∷ entries) = (find k m ≡ some v) × Listed m entries

  Listed-cons :
      (k : K) (v : V) (m entries : Dict K V)
      → find k m ≡ none
      → Listed m entries
      → Listed ((k, v) ∷ m) entries
  unfolding find
  Listed-cons k v m [] h l = tt
  Listed-cons k v m ((j, w) ∷ entries) h (l, ls) =
      (ground (arith, e.beq_iff k j), Listed-cons k v m entries h ls)

  -- The entries of a map without double keys are what `find` finds.
  pub HasDistinctKeys-Listed : (m : Dict K V) → HasDistinctKeys m → Listed m m
  unfolding find
  HasDistinctKeys-Listed [] h = tt
  HasDistinctKeys-Listed ((k, v) ∷ m) (h, hs) =
      (ground (arith, e.beq_iff k k), Listed-cons k v m m h (HasDistinctKeys-Listed m hs))

  pub Listed-take :
      (m : Dict K V) (n : ℕ) (entries : Dict K V) → Listed m entries → Listed m (take n entries)
  Listed-take m zero entries h = tt
  Listed-take m (suc n) [] h = tt
  Listed-take m (suc n) (x ∷ es) (h, hs) = (h, Listed-take m n es hs)
