-- ===== src/Server/Guard.antt =====
-- What a client without the password can do over a connection: `Server::process_client` of
-- src/networking/server.cpp.
use my_redis.Prelude.{
  ℕ, zero, suc, none, some, ◌+◌, ◌≡◌, ◌≢◌, List, [], ◌∷◌, ◌++◌, Bool, true, false, ltb, ◌==◌,
  nat_eq, if◌then◌else◌, refl, Bool-cases, inl, inr, ◌∙◌, sym, ap, subst, drop, length, arith,
}
use my_redis.Prelude.Text.{Text, text_eq, codes}
use my_redis.Resp.{RespParseResult, parsed, need_more, protocol_error, parse_command}
use my_redis.Resp.Serialize.{serialize_response}
use my_redis.Dict.{find, assign}
use my_redis.Dict.Laws.{find-assign}
use my_redis.Commands.{Shared}
use my_redis.Server.{
  ClientState, Surroundings, Processed, respond, process_loop, max_buffer, Incoming, received,
  would_block, closed, Server, client_at, process_client, new_client,
}
use my_redis.Server.Round.{round, process_loop-round}
use my_redis.Server.Session.{respond_unauthenticated, respond_authenticated}

contradiction : ¬ (true ≡ false)
contradiction p = ground arith

by_test : (Q : Processed → Type 0) (b : Bool) (p q : Processed) → Q p → Q q → Q (if b then p else q)
by_test Q true p q g h = g
by_test Q false p q g h = h

module _ (password : Text) (fd : ℕ) (w : Surroundings) where
  abbrev Rest : Type 0
  Rest = ℕ → ClientState → Shared → List Text → Processed

  abbrev IsKnown : Processed → Type 0
  IsKnown p = p.client.authenticated ≡ true

  -- A client that is authenticated stays so.
  round-IsKnown :
      (i : ℕ) (client : ClientState) (s : Shared) (sent : List Text) (next : Rest)
      (r : RespParseResult)
      → ((i : ℕ) (client : ClientState) (s : Shared) (sent : List Text)
          → client.authenticated ≡ true
          → IsKnown (next i client s sent))
      → client.authenticated ≡ true
      → IsKnown (round password fd w i client s sent next r)
  unfolding round
  round-IsKnown i client s sent next (protocol_error n) later h = h
  round-IsKnown i client s sent next (need_more zero) later h = h
  round-IsKnown i client s sent next (need_more (suc m)) later h = later i _ s sent h
  round-IsKnown i client s sent next (parsed cmd n) later h =
      let rest : ClientState = record client { read_buffer = drop n client.read_buffer } in
      let known = respond_authenticated password fd (w.context i) cmd rest s h in
      let still = ap (λ (a : Text × ClientState × Shared). a.1.authenticated) known ∙ h in
      by_test IsKnown (ltb max_buffer (length rest.read_buffer)) _ _ h (
        by_test IsKnown (cmd.name == codes "QUIT") _ _ h
          (by_test IsKnown (w.sent_ok i) _ _ (later (i + 1) _ _ _ still) still))

  process_loop-IsKnown :
      (fuel i : ℕ) (client : ClientState) (s : Shared) (sent : List Text)
      → client.authenticated ≡ true
      → IsKnown (process_loop password fd w fuel i client s sent)
  unfolding process_loop
  process_loop-IsKnown zero i client s sent h = h
  process_loop-IsKnown (suc fuel) i client s sent h =
      subst IsKnown (sym (process_loop-round password fd w fuel i client s sent)) (
        round-IsKnown i client s sent
          (λ i client s sent. process_loop password fd w fuel i client s sent)
          (parse_command client.read_buffer)
          (λ i client s sent known. process_loop-IsKnown fuel i client s sent known) h)

  -- Nothing shared has changed, unless the client is authenticated now.
  abbrev IsGuarded : Shared → Processed → Type 0
  IsGuarded s p = p.client.authenticated ≡ false → p.shared ≡ s

  round-IsGuarded :
      (i : ℕ) (client : ClientState) (s : Shared) (sent : List Text) (next : Rest)
      (r : RespParseResult)
      → password ≢ []
      → ((i : ℕ) (client : ClientState) (s : Shared) (sent : List Text)
          → client.authenticated ≡ true
          → IsKnown (next i client s sent))
      → ((i : ℕ) (client : ClientState) (s : Shared) (sent : List Text)
          → client.authenticated ≡ false
          → IsGuarded s (next i client s sent))
      → client.authenticated ≡ false
      → IsGuarded s (round password fd w i client s sent next r)
  unfolding round
  round-IsGuarded i client s sent next (protocol_error n) p known guarded h = λ g. refl
  round-IsGuarded i client s sent next (need_more zero) p known guarded h = λ g. refl
  round-IsGuarded i client s sent next (need_more (suc m)) p known guarded h = guarded i _ s sent h
  round-IsGuarded i client s sent next (parsed cmd n) p known guarded h =
      let rest : ClientState = record client { read_buffer = drop n client.read_buffer } in
      let answer = respond password fd (w.context i) cmd rest s in
      let same = (respond_unauthenticated password fd (w.context i) cmd rest s p h).0 in
      let sent' = sent ++ (serialize_response answer.0 ∷ []) in
      by_test (IsGuarded s) (ltb max_buffer (length rest.read_buffer)) _ _ (λ g. refl)
        (by_test (IsGuarded s) (cmd.name == codes "QUIT") _ _ (λ g. refl)
          (by_test (IsGuarded s) (w.sent_ok i) _ _
            (elim (Bool-cases answer.1.authenticated) [
              | inl a ↦
                  λ g. absurd (contradiction (sym (known (i + 1) answer.1 answer.2 sent' a) ∙ g))
              | inr a ↦ λ g. guarded (i + 1) answer.1 answer.2 sent' a g ∙ same
            ])
            (λ g. same)))

  process_loop-IsGuarded :
      (fuel i : ℕ) (client : ClientState) (s : Shared) (sent : List Text)
      → password ≢ []
      → client.authenticated ≡ false
      → IsGuarded s (process_loop password fd w fuel i client s sent)
  unfolding process_loop
  process_loop-IsGuarded zero i client s sent p h = λ g. refl
  process_loop-IsGuarded (suc fuel) i client s sent p h =
      subst (IsGuarded s) (sym (process_loop-round password fd w fuel i client s sent)) (
        round-IsGuarded i client s sent
          (λ i client s sent. process_loop password fd w fuel i client s sent)
          (parse_command client.read_buffer) p
          (λ i client s sent known. process_loop-IsKnown fuel i client s sent known)
          (λ i client s sent h. process_loop-IsGuarded fuel i client s sent p h) h)

pub client_at-assign :
    (fd : ℕ) (client : ClientState) (s : Shared) (server : Server)
    → client_at fd (record server { clients = assign fd client server.clients; shared = s })
      ≡ client
unfolding client_at
client_at-assign fd client s server =
    ap (λ found. elim found [ none ↦ new_client | some c ↦ c ])
      (find-assign fd fd client server.clients ∙ itself fd)
  where
    itself : (n : ℕ) → (if n == n then some client else find n server.clients) ≡ some client
    itself n = ground (arith)

-- With a password set, whatever arrives in one read from a client that is not authenticated, and
-- however much of it was there before: if the client is not authenticated afterwards either, then
-- nothing that the clients share has changed, neither the store, the subscriptions nor the files.
pub process_client-unauthenticated :
    (fd : ℕ) (w : Surroundings) (incoming : Incoming) (server : Server)
    → server.password ≢ []
    → (client_at fd server).authenticated ≡ false
    → (client_at fd (process_client fd w incoming server).1).authenticated ≡ false
    → (process_client fd w incoming server).1.shared ≡ server.shared
unfolding process_client client_at
process_client-unauthenticated fd w closed server p h after = refl
process_client-unauthenticated fd w would_block server p h after = refl
process_client-unauthenticated fd w (received bytes) server p h after =
    process_loop-IsGuarded server.password fd w _ 0 _ server.shared [] p h (
      sym (ap (λ (c : ClientState). c.authenticated) (client_at-assign fd _ server.shared server))
      ∙ after)
