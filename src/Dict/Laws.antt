-- ===== src/Dict/Laws.antt =====
-- What the operations of a map do to `find`.
use my_redis.Prelude.{◌≡◌, refl, none, some, [], ◌∷◌, Eq, ◌==◌, if◌then◌else◌, arith}
use my_redis.Dict.{Dict, find, assign, erase}

module _ {K V : Type 0} ⦃e : Eq K⦄ where
  pub find-assign :
      (k j : K) (v : V) (m : Dict K V)
      → find j (assign k v m) ≡ (if k == j then some v else find j m)
  unfolding find assign
  find-assign k j v [] = refl
  find-assign k j v ((i, w) ∷ m) =
      ground (arith, e.beq_iff k j, e.beq_iff i k, e.beq_iff i j, find-assign k j v m)

  pub find-erase :
      (k j : K) (m : Dict K V) → find j (erase k m) ≡ (if k == j then none else find j m)
  unfolding find erase
  find-erase k j [] = ground arith
  find-erase k j ((i, w) ∷ m) =
      ground (arith, e.beq_iff k j, e.beq_iff i k, e.beq_iff i j, find-erase k j m)

pub ruleset dict_laws = (find-assign, find-erase)
