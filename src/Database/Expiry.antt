-- ===== src/Database/Expiry.antt =====
-- Deadlines: the expiry thread and TTL against the view.
use my_redis.Prelude.{
  ℕ, ◌+◌, ◌-◌, ◌*◌, ◌/◌, ◌^◌, ◌≤◌, ◌<◌, ◌≡◌, none, List, [], ◌∷◌, true, ltb, leb, if◌then◌else◌,
  arith, refl, take, All, Bool-cases, inl, inr, ◌∙◌,
}
use my_redis.Prelude.Int.{pos, negsuc, to_int-fits}
use my_redis.Prelude.Text.{Text, text_eq, text_beq_iff}
use my_redis.Dict.{Dict}
use my_redis.Dict.Distinct.{Listed, Listed-take, HasDistinctKeys-Listed}
use my_redis.Dict.Laws.{find-assign}
use my_redis.Database.{
  Database, remove_expired_unlocked, remove_all, expiry_scan, to_delete, max_sample, expire, ttl,
  deadline_after, nanos,
}
use my_redis.Database.Distinct.{IsDistinct}
use my_redis.Database.View.{view, view-remove}

pub remove_all_gone :
    (now : ℕ) (j : Text) (ks : List Text) (db : Database)
    → All (λ k. view now k db ≡ none) ks
    → view now j (remove_all ks db) ≡ view now j db
unfolding remove_all
remove_all_gone now j [] db h = refl
remove_all_gone now j (key ∷ ks) db (h, hs) =
    remove_all_gone now j ks (remove_expired_unlocked key db) (still_gone ks hs)
    ∙ ground (arith, view-remove now key j db, text_beq_iff key j)
  where
    still_gone :
        (ls : List Text)
        → All (λ k. view now k db ≡ none) ls
        → All (λ k. view now k (remove_expired_unlocked key db) ≡ none) ls
    still_gone [] gs = tt
    still_gone (l ∷ ls) (g, gs) = (ground (arith, view-remove now key l db), still_gone ls gs)

to_delete_gone :
    (now later : ℕ) (db : Database) (entries : Dict Text ℕ)
    → now ≤ later
    → Listed db.expiry entries
    → All (λ k. view later k db ≡ none) (to_delete now entries)
unfolding to_delete view
to_delete_gone now later db [] le h = tt
to_delete_gone now later db ((key, deadline) ∷ entries) le (h, hs) =
    elim (Bool-cases (leb deadline now)) [
      | inl x ↦ rw x (ground arith, to_delete_gone now later db entries le hs)
      | inr x ↦ rw x (to_delete_gone now later db entries le hs)
    ]

-- A round of the expiry thread changes the view of no key, at that instant or later, where the
-- list for the deadlines holds no key twice.
pub view-expiry_scan :
    (now later : ℕ) (j : Text) (db : Database)
    → now ≤ later
    → IsDistinct db
    → view later j (expiry_scan now db) ≡ view later j db
unfolding expiry_scan
view-expiry_scan now later j db le d =
    remove_all_gone later j (to_delete now (take max_sample db.expiry)) db (
      to_delete_gone now later db (take max_sample db.expiry) le
        (Listed-take db.expiry max_sample db.expiry (HasDistinctKeys-Listed db.expiry d.expiry)))

-- A TTL asked `passed` nanoseconds after a successful EXPIRE, with fewer than 2^31 seconds, answers
-- the whole seconds that are left, and -2 from the deadline on.
pub ttl-expire :
    (now passed : ℕ) (key : Text) (seconds : ℕ) (db : Database)
    → seconds < 2 ^ 31
    → (expire now key (pos seconds) db).0 ≡ true
    → (ttl (now + passed) (now + passed) key (expire now key (pos seconds) db).1).0 ≡ (
        if ltb passed (seconds * nanos) then pos ((seconds * nanos - passed) / nanos) else negsuc 1)
unfolding ttl expire
ttl-expire now passed key seconds db small ok = ground (
  arith,
  find-assign key key (deadline_after now (pos seconds)) db.expiry,
  text_beq_iff key key,
  to_int-fits ((seconds * nanos - passed) / nanos),
)
