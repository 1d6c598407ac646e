-- ===== src/Protocol/RoundTrip.antt =====
-- Encoding and reading a message of src/protocol/protocol.cpp.
use my_redis.Prelude.{
  arith, ℕ, zero, suc, ◌-◌, ◌^◌, ◌%◌, ◌≤◌, ◌≡◌, ◌≢◌, Option, none, some, [], ◌∷◌, ◌++◌, Bool, false,
  ltb, refl, drop, length, ◌∙◌, sym, ap,
}
use mathlib.Core.List.{append_assoc}
use my_redis.Prelude.Text.{Text}
use my_redis.Persistence.{write_uint32}
use my_redis.Persistence.Read.{read_uint32}
use my_redis.Persistence.Codec.{read_uint32-write}
use my_redis.Socket.{Socket, read_loop, read_exact}
use my_redis.Resp.Bounds.{length-drop}
use mathlib.Core.Path.{subst}
use my_redis.Protocol.{encode, max_message, read_payload, read_message}

-- Two ways to cut the same bytes, the first cut not behind the second.
cut_before :
    (xs p ys r : Text)
    → xs ++ p ≡ ys ++ r
    → length xs ≤ length ys
    → (p ≡ drop (length xs) ys ++ r) × (xs ++ drop (length xs) ys ≡ ys)
cut_before [] p ys r e h = (e, refl)
cut_before (x ∷ xs) p [] r e h = absurd (omega arith)
cut_before (x ∷ xs) p (y ∷ ys) r e h =
    let (rest, whole) = cut_before xs p ys r (ap (λ (s : Text). drop 1 s) e) (omega arith) in
    (rest, ground (arith, whole))

pub not_empty : (c : ℕ) (s : Text) → c ∷ s ≢ []
not_empty c s = ground arith

module _ (socket : Socket) where
  open socket use {S, read, pending, read_split, read_fits, read_some}

  -- The result has read these bytes and left these pending.
  abbrev pub HasRead : Text → Text → Option (Text × S) → Type 0
  HasRead bytes rest none = Bool.true ≡ Bool.false
  HasRead bytes rest (some (got, s)) = (got ≡ bytes) × (pending s ≡ rest)

  join :
      (front left bytes rest : Text) (o : Option (Text × S))
      → HasRead left rest o
      → front ++ left ≡ bytes
      → HasRead bytes rest
          (elim o [ none ↦ none | some (more, final) ↦ some (front ++ more, final) ])
  join front left bytes rest none h e = h
  join front left bytes rest (some (more, final)) (got, behind) e =
      (ap (λ m. front ++ m) got ∙ e, behind)

  read_loop-HasRead :
      (fuel : ℕ) (bytes rest : Text) (s : S)
      → length bytes ≤ fuel
      → pending s ≡ bytes ++ rest
      → HasRead bytes rest (read_loop socket fuel (length bytes) s)
  unfolding read_loop
  read_loop-HasRead fuel [] rest s h e = (refl, e)
  read_loop-HasRead zero (c ∷ bytes) rest s h e = absurd (omega arith)
  read_loop-HasRead (suc fuel) (c ∷ bytes) rest s h e =
      step (read (suc (length bytes)) s).0 (read (suc (length bytes)) s).1
        (read_split (suc (length bytes)) s ∙ e) (read_fits (suc (length bytes)) s)
        (λ left s' h e. read_loop-HasRead fuel left rest s' h e)
        (read_some (suc (length bytes)) s (omega arith)
          (λ none_left. not_empty c (bytes ++ rest) (sym e ∙ none_left)))
    where
      step :
          (got : Text) (s' : S)
          → got ++ pending s' ≡ (c ∷ bytes) ++ rest
          → length got ≤ suc (length bytes)
          → ((left : Text) (s' : S)
              → length left ≤ fuel
              → pending s' ≡ left ++ rest
              → HasRead left rest (read_loop socket fuel (length left) s'))
          → got ≢ []
          → HasRead (c ∷ bytes) rest (elim got [
            | [] ↦ none
            | x ∷ xs ↦ elim (read_loop socket fuel (suc (length bytes) - length (x ∷ xs)) s') [
              | none ↦ none
              | some (more, final) ↦ some ((x ∷ xs) ++ more, final)
            ]
          ])
      step [] s' e fits again some_read = absurd (some_read refl)
      step (x ∷ xs) s' e fits again some_read =
          let (behind, whole) = cut_before (x ∷ xs) (pending s') (c ∷ bytes) rest e fits in
          join (x ∷ xs) (drop (length xs) bytes) (c ∷ bytes) rest _
            (subst (λ n. HasRead (drop (length xs) bytes) rest (read_loop socket fuel n s'))
              (omega (arith, length-drop (length xs) bytes))
              (again (drop (length xs) bytes) s' (omega (arith, length-drop (length xs) bytes))
                behind))
            whole

  -- `read_exact` for a number of bytes that the peer has sent reads just these, however the calls
  -- split them.
  pub read_exact-HasRead :
      (bytes rest : Text) (s : S)
      → pending s ≡ bytes ++ rest
      → HasRead bytes rest (read_exact socket (length bytes) s)
  unfolding read_exact
  read_exact-HasRead bytes rest s e = read_loop-HasRead (length bytes) bytes rest s (omega arith) e

  read_payload-HasRead :
      (message rest : Text) (s : S)
      → length message ≤ max_message
      → pending s ≡ message ++ rest
      → HasRead message rest (read_payload socket (length message) s)
  unfolding read_payload
  read_payload-HasRead message rest s fits e =
      rw (within (length message) fits) (read_exact-HasRead message rest s e)
    where
      within : (n : ℕ) → n ≤ max_message → ltb max_message n ≡ false
      within n h = ground arith

  -- A message of at most 64 MB that was encoded is read back, and the bytes behind it are left,
  -- however the socket splits them.
  pub read_message-encode :
      (message rest : Text) (s : S)
      → length message ≤ max_message
      → pending s ≡ encode message ++ rest
      → HasRead message rest (read_message socket s)
  unfolding read_message encode
  read_message-encode message rest s fits e =
      after (read_exact socket 4 s)
        (read_exact-HasRead header (message ++ rest) s (e ∙ append_assoc header message rest))
    where
      header : Text
      header = write_uint32 (length message % 2 ^ 32)

      header_read : read_uint32 header ≡ some (length message, [])
      header_read =
          read_uint32-write (length message % 2 ^ 32) [] (omega arith)
          ∙ ap (λ n. some (n, [])) (omega arith)

      after :
          (o : Option (Text × S))
          → HasRead header (message ++ rest) o
          → HasRead message rest (elim o [
            | none ↦ none
            | some (got, s') ↦ elim (read_uint32 got) [
              | none ↦ none
              | some (len, behind) ↦ read_payload socket len s'
            ]
          ])
      after none h = h
      after (some (got, s')) (g, p) =
          rw (ap (λ b. read_uint32 b) g ∙ header_read) (read_payload-HasRead message rest s' fits p)
