-- ===== src/Persistence/Restored.antt =====
-- The database that a dump of src/persistence/persistence.cpp brings back, as the clients see it.
use my_redis.Prelude.{
  arith, ℕ, zero, suc, ◌+◌, ◌-◌, ◌*◌, ◌/◌, ◌≤◌, ◌≡◌, Option, none, some, [], ◌∷◌, List, Bool, true,
  false, ltb, if◌then◌else◌, refl, ◌∙◌,
}
use my_redis.Prelude.Int.{pos}
use my_redis.Prelude.Text.{Text, text_eq}
use my_redis.Dict.{Dict, find}
use my_redis.Dict.Distinct.{HasDistinctKeys, assign-HasDistinctKeys}
use my_redis.Database.{Database, DatabaseSnapshot, get_snapshot, load_snapshot, is_expired_unlocked}
use my_redis.Database.View.{Value, value_of, view}
use my_redis.Database.Invariant.{IsConsistent, IsWellFormed}
use my_redis.Database.Distinct.{IsDistinct}
use my_redis.Persistence.{has_expired, nanos_per_milli}
use my_redis.Persistence.Read.{Life, forever, elapsed, until, life_of, add_string, add_list}
use my_redis.Persistence.File.{empty_snapshot}
use my_redis.Persistence.Codec.{millis_left}
use my_redis.Persistence.RoundTrip.{restored}
use my_redis.Persistence.Dump.{reloaded}
use my_redis.Persistence.Reload.{kept, renewed}
use my_redis.Persistence.Survival.{store-reloaded, list_store-reloaded, expiry-reloaded}

module _ (str : Option Text) (l : Option (List Text)) where
  kept-IsConsistent :
      (deadline : Option ℕ) (life : Life)
      → IsConsistent str l deadline
      → IsConsistent
          (kept life str none)
          (kept life l none)
          (renewed life l (renewed life str none))
  kept-IsConsistent deadline forever h = ground (arith, h)
  kept-IsConsistent deadline elapsed h = ground (arith, h)
  kept-IsConsistent deadline (until d) h = ground (arith, h)

pub reloaded-IsWellFormed :
    (now' now : ℕ) (db : Database)
    → IsDistinct db
    → IsWellFormed db
    → IsWellFormed (load_snapshot (reloaded now' now (get_snapshot db)))
unfolding load_snapshot
reloaded-IsWellFormed now' now db distinct h k =
    rw
      (
        store-reloaded now' now db distinct k,
        list_store-reloaded now' now db distinct k,
        expiry-reloaded now' now db distinct k,
      )
      (kept-IsConsistent (find k db.store) (find k db.list_store) (find k db.expiry) _ (h k))

-- The maps alone: the lists are read into what the strings have left.
abbrev HasDistinctMaps : DatabaseSnapshot → Type 0
HasDistinctMaps snap =
    HasDistinctKeys snap.store × (HasDistinctKeys snap.list_store × HasDistinctKeys snap.expiry)

add_string-HasDistinctMaps :
    (key v : Text) (life : Life) (snap : DatabaseSnapshot)
    → HasDistinctMaps snap
    → HasDistinctMaps (add_string key v life snap)
unfolding add_string
add_string-HasDistinctMaps key v forever snap (s, (l, e)) =
    (assign-HasDistinctKeys key v snap.store s, (l, e))
add_string-HasDistinctMaps key v elapsed snap h = h
add_string-HasDistinctMaps key v (until d) snap (s, (l, e)) =
    (assign-HasDistinctKeys key v snap.store s, (l, assign-HasDistinctKeys key d snap.expiry e))

add_list-HasDistinctMaps :
    (key : Text) (v : List Text) (life : Life) (snap : DatabaseSnapshot)
    → HasDistinctMaps snap
    → HasDistinctMaps (add_list key v life snap)
unfolding add_list
add_list-HasDistinctMaps key v forever snap (s, (l, e)) =
    (s, (assign-HasDistinctKeys key v snap.list_store l, e))
add_list-HasDistinctMaps key v elapsed snap h = h
add_list-HasDistinctMaps key v (until d) snap (s, (l, e)) = (
  s,
  (assign-HasDistinctKeys key v snap.list_store l, assign-HasDistinctKeys key d snap.expiry e),
)

restored-HasDistinctMaps :
    {V : Type 0}
    → (add : Text → V → Life → DatabaseSnapshot → DatabaseSnapshot)
    → ((key : Text) (v : V) (life : Life) (snap : DatabaseSnapshot)
        → HasDistinctMaps snap
        → HasDistinctMaps (add key v life snap))
    → (now' now : ℕ) (expiry : Dict Text ℕ) (m : Dict Text V) (snap : DatabaseSnapshot)
    → HasDistinctMaps snap
    → HasDistinctMaps (restored add now' now expiry m snap)
unfolding restored
restored-HasDistinctMaps add keeps now' now expiry [] snap h = h
restored-HasDistinctMaps add keeps now' now expiry ((key, v) ∷ m) snap h =
    restored-HasDistinctMaps add keeps now' now expiry m _ (
      either (has_expired now (find key expiry)) snap _ h
        (keeps key v (life_of now' (millis_left now (find key expiry))) snap h))
  where
    either :
        (b : Bool) (s t : DatabaseSnapshot)
        → HasDistinctMaps s
        → HasDistinctMaps t
        → HasDistinctMaps (if b then s else t)
    either true s t x y = x
    either false s t x y = y

-- Whatever the saved maps were, those of a database that was loaded hold no key twice.
pub reloaded-IsDistinct :
    (now' now : ℕ) (snap : DatabaseSnapshot) → IsDistinct (load_snapshot (reloaded now' now snap))
unfolding load_snapshot reloaded
reloaded-IsDistinct now' now snap =
    let (s, (l, e)) =
      restored-HasDistinctMaps add_list add_list-HasDistinctMaps now' now snap.expiry
        snap.list_store _
        (restored-HasDistinctMaps add_string add_string-HasDistinctMaps now' now snap.expiry
          snap.store empty_snapshot (tt, (tt, tt))) in
    record { store = s; list_store = l; expiry = e }

-- What a deadline has become by a restart: the whole milliseconds that it had left.
abbrev pub still_there : ℕ → ℕ → ℕ → Option ℕ → Bool
still_there now' now t none = true
still_there now' now t (some deadline) =
    ltb t (now' + (deadline - now) / nanos_per_milli * nanos_per_milli)

-- The value at a key by what its maps have become.
abbrev shown : ℕ → Life → Option Text → Option (List Text) → Option Value
shown t life str l =
    if has_expired t (renewed life l (renewed life str none))
    then none
    else value_of (kept life str none) (kept life l none)

shown_forever :
    (t : ℕ) (str : Option Text) (l : Option (List Text)) → shown t forever str l ≡ value_of str l
unfolding has_expired
shown_forever t none none = refl
shown_forever t none (some l) = refl
shown_forever t (some s) l = refl

shown_until :
    (t d : ℕ) (str : Option Text) (l : Option (List Text))
    → shown t (until d) str l ≡ (if ltb t d then value_of str l else none)
unfolding has_expired
shown_until t d none none = ground arith
shown_until t d (some s) none = ground arith
shown_until t d none (some l) = ground arith
shown_until t d (some s) (some l) = ground arith

shown_millis :
    (now' t n : ℕ) (str : Option Text) (l : Option (List Text))
    → now' ≤ t
    → shown t (life_of now' (some (pos n))) str l
      ≡ (if ltb t (now' + n * nanos_per_milli) then value_of str l else none)
unfolding life_of has_expired
shown_millis now' t zero str l h = ground arith
shown_millis now' t (suc n) str l h = shown_until t (now' + suc n * nanos_per_milli) str l

shown_left :
    (now' now t : ℕ) (deadline : Option ℕ) (str : Option Text) (l : Option (List Text))
    → now' ≤ t
    → shown t (life_of now' (millis_left now deadline)) str l
      ≡ (if still_there now' now t deadline then value_of str l else none)
unfolding life_of
shown_left now' now t none str l h = shown_forever t str l
shown_left now' now t (some d) str l h = shown_millis now' t ((d - now) / nanos_per_milli) str l h

view_shown :
    (t : ℕ) (key : Text) (db : Database)
    → view t key db ≡ (
        if has_expired t (find key db.expiry)
        then none
        else value_of (find key db.store) (find key db.list_store))
unfolding view is_expired_unlocked has_expired
view_shown t key db = ground arith

-- Each key of a database that was loaded shows what it did, until the whole milliseconds that its
-- deadline was away at the save are over, counted from the load.
pub view-reloaded :
    (now' now t : ℕ) (key : Text) (db : Database)
    → IsDistinct db
    → now' ≤ t
    → view t key (load_snapshot (reloaded now' now (get_snapshot db))) ≡ (
        if still_there now' now t (find key db.expiry)
        then value_of (find key db.store) (find key db.list_store)
        else none)
unfolding load_snapshot
view-reloaded now' now t key db distinct h =
    view_shown t key (load_snapshot (reloaded now' now (get_snapshot db)))
    ∙ rw
        (
          store-reloaded now' now db distinct key,
          list_store-reloaded now' now db distinct key,
          expiry-reloaded now' now db distinct key,
        )
        refl
    ∙ shown_left now' now t (find key db.expiry) (find key db.store) (find key db.list_store) h
