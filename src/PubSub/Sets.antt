-- ===== src/PubSub/Sets.antt =====
-- `std::set` and `std::unordered_set` as lists: insert, erase, and the entry that `m[k]` makes.
use my_redis.Prelude.{
  none, some, List, [], ◌∷◌, ◌++◌, ◌≡◌, Bool, false, ◌||◌, Eq, ◌==◌, arith, if◌then◌else◌,
}
use my_redis.Dict.{Dict, find, assign, erase}
use my_redis.Dict.Laws.{find-assign, find-erase}

module _ {A : Type 0} ⦃e : Eq A⦄ where
  unfoldable pub member : A → List A → Bool
  member a [] = false
  member a (x ∷ xs) = x == a || member a xs

  unfoldable pub insert : A → List A → List A
  unfolding member
  insert a xs = if member a xs then xs else xs ++ (a ∷ [])

  unfoldable pub remove : A → List A → List A
  remove a [] = []
  remove a (x ∷ xs) = let rest = remove a xs in if x == a then rest else x ∷ rest

  member-append_one : (a b : A) (xs : List A) → member b (xs ++ (a ∷ [])) ≡ (member b xs || a == b)
  unfolding member
  member-append_one a b [] = ground arith
  member-append_one a b (x ∷ xs) = ground (arith, member-append_one a b xs)

  pub member-insert : (a b : A) (xs : List A) → member b (insert a xs) ≡ (a == b || member b xs)
  unfolding insert
  member-insert a b xs = ground (arith, member-append_one a b xs, e.beq_iff a b)

  pub member-remove :
      (a b : A) (xs : List A) → member b (remove a xs) ≡ (if a == b then false else member b xs)
  unfolding member remove
  member-remove a b [] = ground arith
  member-remove a b (x ∷ xs) =
      ground (arith, e.beq_iff a b, e.beq_iff x a, e.beq_iff x b, member-remove a b xs)

module _ {K A : Type 0} ⦃e : Eq K⦄ where
  unfoldable pub set_at : K → Dict K (List A) → List A
  set_at k m = elim (find k m) [ none ↦ [] | some xs ↦ xs ]

  pub set_at-assign :
      (k j : K) (xs : List A) (m : Dict K (List A))
      → set_at j (assign k xs m) ≡ (if k == j then xs else set_at j m)
  unfolding set_at
  set_at-assign k j xs m = ground (arith, find-assign k j xs m)

  pub set_at-erase :
      (k j : K) (m : Dict K (List A)) → set_at j (erase k m) ≡ (if k == j then [] else set_at j m)
  unfolding set_at
  set_at-erase k j m = ground (arith, find-erase k j m)
