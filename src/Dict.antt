-- ===== src/Dict.antt =====
-- `std::unordered_map` as an association list. The order in which the source iterates over a map
-- is not specified by C++: here it is the order of the list.
pub mod Laws
pub mod Distinct
use my_redis.Prelude.{Option, none, some, List, [], ◌∷◌, Bool, Eq, ◌==◌, if◌then◌else◌, is_some}

abbrev pub Dict : Type 0 → Type 0 → Type 0
Dict K V = List (K × V)

module _ {K V : Type 0} ⦃e : Eq K⦄ where
  -- m.find(k)
  unfoldable pub find : K → Dict K V → Option V
  find k [] = none
  find k ((j, v) ∷ m) = if j == k then some v else find k m

  -- m.count(k) > 0
  abbrev pub contains : K → Dict K V → Bool
  contains k m = is_some (find k m)

  -- m[k] = v
  unfoldable pub assign : K → V → Dict K V → Dict K V
  assign k v [] = (k, v) ∷ []
  assign k v ((j, w) ∷ m) = if j == k then (k, v) ∷ m else (j, w) ∷ assign k v m

  -- m.erase(k)
  unfoldable pub erase : K → Dict K V → Dict K V
  erase k [] = []
  erase k ((j, v) ∷ m) = let rest = erase k m in if j == k then rest else (j, v) ∷ rest
