-- ===== src/Persistence/Checksum.antt =====
-- `Persistence::compute_crc32` of src/persistence/persistence.cpp against the sum byte by byte.
use Prim.Native.Nat.{bit_xor, min}
use my_redis.Prelude.{
  ℕ, zero, suc, ◌+◌, ◌-◌, ◌≤◌, ◌≡◌, ◌≢◌, [], ◌∷◌, ◌++◌, true, false, ◌==◌, nat_eq, arith, refl,
  take, drop, length, take-length_append, take-all, ◌∙◌, sym, ap, Bool-cases, inl, inr,
}
use my_redis.Prelude.Text.{Text}
use my_redis.Persistence.Crc.{crc_step, crc_chunk, chunk_size, crc_loop, compute_crc32}

crc_chunk-append :
    (crc : ℕ) (xs ys : Text) → crc_chunk crc (xs ++ ys) ≡ crc_chunk (crc_chunk crc xs) ys
unfolding crc_chunk
crc_chunk-append crc [] ys = refl
crc_chunk-append crc (x ∷ xs) ys = crc_chunk-append (crc_step crc x) xs ys

take_nil : (k : ℕ) → take {A = ℕ} k [] ≡ []
take_nil zero = refl
take_nil (suc k) = refl

take_split : (m n : ℕ) (xs : Text) → take (m + n) xs ≡ take m xs ++ take n (drop m xs)
take_split zero n xs = ap (λ k. take k xs) (omega arith)
take_split (suc m) n [] = take_nil (suc m + n) ∙ sym (take_nil n)
take_split (suc m) n (x ∷ xs) =
    ap (λ k. take k (x ∷ xs)) (one_more m n) ∙ ap (λ ys. x ∷ ys) (take_split m n xs)
  where
    one_more : (a b : ℕ) → suc a + b ≡ suc (a + b)
    one_more a b = omega arith

length-take : (n : ℕ) (xs : Text) → length (take n xs) ≡ min n (length xs)
length-take zero xs = omega arith
length-take (suc n) [] = omega arith
length-take (suc n) (x ∷ xs) = omega (arith, length-take n xs)

equal : (a b : ℕ) → (a == b) ≡ true → a ≡ b
equal a b e = ground arith

unequal : (a b : ℕ) → (a == b) ≡ false → a ≢ b
unequal a b e = ground arith

-- A full chunk and the rest of the bytes, or a chunk that ends the file.
full_chunk :
    (crc k r : ℕ) (bytes : Text)
    → k ≤ r
    → crc_chunk (crc_chunk crc (take k bytes)) (take (r - k) (drop k bytes))
      ≡ crc_chunk crc (take r bytes)
full_chunk crc k r bytes h =
    sym (crc_chunk-append crc (take k bytes) (take (r - k) (drop k bytes)))
    ∙ ap (λ s. crc_chunk crc s) (sym (take_split k (r - k) bytes))
    ∙ ap (λ n. crc_chunk crc (take n bytes)) (omega arith)

last_chunk :
    (crc k r : ℕ) (bytes : Text)
    → k ≤ r
    → length (take k bytes) ≢ k
    → crc_chunk crc (take k bytes) ≡ crc_chunk crc (take r bytes)
last_chunk crc k r bytes h short =
    ap (λ s. crc_chunk crc s)
      (take-all k bytes (omega (arith, length-take k bytes, short))
        ∙ sym (take-all r bytes (omega (arith, length-take k bytes, short))))

-- The loop over the chunks is the sum over the bytes, up to the length or the end of the file.
crc_loop-take :
    (fuel crc remaining : ℕ) (bytes : Text)
    → remaining ≤ fuel
    → crc_loop fuel crc remaining bytes ≡ crc_chunk crc (take remaining bytes)
unfolding crc_loop crc_chunk
crc_loop-take zero crc zero bytes h = refl
crc_loop-take zero crc (suc r) bytes h = absurd (omega arith)
crc_loop-take (suc fuel) crc zero bytes h = refl
crc_loop-take (suc fuel) crc (suc r) bytes h =
    let k = min (suc r) chunk_size in
    elim (Bool-cases (length (take k bytes) == k)) [
      | inl e ↦ rw e (
          ap (λ n. crc_loop fuel (crc_chunk crc (take k bytes)) (suc r - n) (drop k bytes))
            (equal (length (take k bytes)) k e)
          ∙ crc_loop-take fuel (crc_chunk crc (take k bytes)) (suc r - k) (drop k bytes)
              (omega arith)
          ∙ full_chunk crc k (suc r) bytes (omega arith))
      | inr e ↦
          rw e (last_chunk crc k (suc r) bytes (omega arith) (unequal (length (take k bytes)) k e))
    ]

-- The checksum of the first bytes of a file looks at no byte behind them.
pub compute_crc32-append :
    (body tail : Text)
    → compute_crc32 (body ++ tail) (length body) ≡ bit_xor (crc_chunk 0xFFFFFFFF body) 0xFFFFFFFF
unfolding compute_crc32
compute_crc32-append body tail =
    ap (λ crc. bit_xor crc 0xFFFFFFFF)
      (crc_loop-take (length body) 0xFFFFFFFF (length body) (body ++ tail) (omega arith)
        ∙ ap (λ s. crc_chunk 0xFFFFFFFF s) (take-length_append body tail))
