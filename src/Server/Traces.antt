-- ===== src/Server/Traces.antt =====
-- What one readable client does to the shared state in src/networking/server.cpp, as operations of the
-- database and calls of the subscriptions.
use my_redis.Prelude.{
  ℕ, zero, suc, ◌+◌, List, [], ◌∷◌, ◌++◌, Bool, true, false, not, ◌&&◌, is_empty, ltb, ◌==◌, nat_eq,
  if◌then◌else◌, drop, length,
}
use my_redis.Prelude.Text.{Text, text_eq, codes}
use my_redis.Parser.{Command}
use my_redis.Resp.{RespParseResult, parsed, need_more, protocol_error, parse_command}
use my_redis.Resp.Serialize.{serialize_response}
use my_redis.Commands.{Context, Shared}
use my_redis.Commands.Traces.{Traces, nothing, Traces-trans}
use my_redis.Commands.Traces.Transactions.{execute-Traces}
use my_redis.Commands.Transactions.{new_handler}
use my_redis.Server.Round.{round, process_loop-round}
use my_redis.Server.{
  ClientState, Surroundings, Processed, respond, process_loop, max_buffer, Incoming, received,
  would_block, closed, Server, process_client,
}

module _ (password : Text) (fd : ℕ) where
  either_way :
      {A : Type 0} (shared_of : A → Shared) (s : Shared) (b : Bool) (x y : A)
      → Traces fd s (shared_of x)
      → Traces fd s (shared_of y)
      → Traces fd s (shared_of (if b then x else y))
  either_way shared_of s true x y p q = p
  either_way shared_of s false x y p q = q

  respond-Traces :
      (c : Context) (cmd : Command) (client : ClientState) (s : Shared)
      → Traces fd s (respond password fd c cmd client s).2
  unfolding respond
  respond-Traces c cmd client s =
      either_way (λ (r : Text × ClientState × Shared). r.2) s
        (not (is_empty password) && not client.authenticated) _ _
        (either_way (λ (r : Text × ClientState × Shared). r.2) s (cmd.name == codes "AUTH") _ _
          (nothing fd s) (nothing fd s))
        (execute-Traces fd c cmd new_handler s)

  round-Traces :
      (w : Surroundings) (i : ℕ) (client : ClientState) (s : Shared) (sent : List Text)
      (next : ℕ → ClientState → Shared → List Text → Processed)
      → ((j : ℕ) (c : ClientState) (t : Shared) (out : List Text)
          → Traces fd t (next j c t out).shared)
      → (r : RespParseResult) → Traces fd s (round password fd w i client s sent next r).shared
  unfolding round
  round-Traces w i client s sent next h (protocol_error n) = nothing fd s
  round-Traces w i client s sent next h (need_more zero) = nothing fd s
  round-Traces w i client s sent next h (need_more (suc m)) = h i _ s sent
  round-Traces w i client s sent next h (parsed cmd n) =
      let client : ClientState = record client { read_buffer = drop n client.read_buffer } in
      let (response, client', s') = respond password fd (w.context i) cmd client s in
      let step = respond-Traces (w.context i) cmd client s in
      either_way (λ (p : Processed). p.shared) s (ltb max_buffer (length client.read_buffer)) _ _
        (nothing fd s)
        (either_way (λ (p : Processed). p.shared) s (cmd.name == codes "QUIT") _ _ (nothing fd s)
          (either_way (λ (p : Processed). p.shared) s (w.sent_ok i) _ _
            (Traces-trans fd s s' _ step
              (h (i + 1) client' s' (sent ++ (serialize_response response ∷ []))))
            step))

  process_loop-Traces :
      (w : Surroundings) (fuel i : ℕ) (client : ClientState) (s : Shared) (sent : List Text)
      → Traces fd s (process_loop password fd w fuel i client s sent).shared
  unfolding process_loop
  process_loop-Traces w zero i client s sent = nothing fd s
  process_loop-Traces w (suc fuel) i client s sent =
      rw (process_loop-round password fd w fuel i client s sent) (
        round-Traces w i client s sent _ (λ j c t out. process_loop-Traces w fuel j c t out)
          (parse_command client.read_buffer))

pub process_client-Traces :
    (fd : ℕ) (w : Surroundings) (incoming : Incoming) (server : Server)
    → Traces fd server.shared (process_client fd w incoming server).1.shared
unfolding process_client
process_client-Traces fd w closed server = nothing fd server.shared
process_client-Traces fd w would_block server = nothing fd server.shared
process_client-Traces fd w (received bytes) server =
    process_loop-Traces server.password fd w _ 0 _ server.shared []
