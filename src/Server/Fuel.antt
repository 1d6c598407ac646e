-- ===== src/Server/Fuel.antt =====
-- The fuel of the loop over the read buffer in `Server::process_client` of
-- src/networking/server.cpp.
use Prim.Native.Nat.add
use my_redis.Prelude.{
  ℕ, zero, suc, ◌+◌, ◌≤◌, ◌<◌, ◌≡◌, List, [], ◌∷◌, ◌++◌, true, nat_eq, arith, refl, drop, length,
  ◌∙◌, ap, sym,
}
use my_redis.Prelude.Text.{Text, text_eq}
use my_redis.Parser.{Command}
use my_redis.Resp.{RespParseResult, parsed, need_more, protocol_error, parse_command}
use my_redis.Resp.Bounds.{IsWithin, parse_command-IsWithin, length-drop}
use my_redis.Resp.Serialize.{serialize_response}
use my_redis.Commands.{Context, Shared}
use my_redis.Server.Round.{round, process_loop-round}
use my_redis.Server.{ClientState, Surroundings, Processed, respond, process_loop}

respond-read_buffer :
    (password : Text) (fd : ℕ) (c : Context) (cmd : Command) (client : ClientState) (s : Shared)
    → (respond password fd c cmd client s).1.read_buffer ≡ client.read_buffer
unfolding respond
respond-read_buffer password fd c cmd client s = ground arith

-- Two rests of the loop that agree on every buffer shorter than this one give the same round.
round_eq :
    (password : Text) (fd : ℕ) (w : Surroundings) (i : ℕ) (client : ClientState) (s : Shared)
    (sent : List Text) (f g : ℕ → ClientState → Shared → List Text → Processed)
    (r : RespParseResult)
    → ((j : ℕ) (c : ClientState) (t : Shared) (out : List Text)
        → length c.read_buffer < length client.read_buffer
        → f j c t out ≡ g j c t out)
    → IsWithin (length client.read_buffer) r
    → round password fd w i client s sent f r ≡ round password fd w i client s sent g r
unfolding round
round_eq password fd w i client s sent f g (protocol_error n) h b = refl
round_eq password fd w i client s sent f g (need_more zero) h b = refl
round_eq password fd w i client s sent f g (need_more (suc m)) h b =
    h i (record client { read_buffer = drop (suc m) client.read_buffer }) s sent
      (omega (arith, length-drop (suc m) client.read_buffer))
round_eq password fd w i client s sent f g (parsed cmd n) h b =
    let client0 : ClientState = record client { read_buffer = drop n client.read_buffer } in
    let (response, client', s') = respond password fd (w.context i) cmd client0 s in
    rw (
      h (i + 1) client' s' (sent ++ (serialize_response response ∷ [])) (
        omega (
          arith,
          ap (λ (b : Text). length b) (respond-read_buffer password fd (w.context i) cmd client0 s),
          length-drop n client.read_buffer,
        )))

empty_round :
    (password : Text) (fd : ℕ) (w : Surroundings) (i : ℕ) (client : ClientState) (s : Shared)
    (sent : List Text) (next : ℕ → ClientState → Shared → List Text → Processed) (buffer : Text)
    → length buffer ≤ 0
    → record { connected = true; client = client; shared = s; sent = sent }
      ≡ round password fd w i client s sent next (parse_command buffer)
unfolding round parse_command
empty_round password fd w i client s sent next [] h = refl
empty_round password fd w i client s sent next (c ∷ b) h = absurd (omega arith)

process_loop-zero :
    (password : Text) (fd : ℕ) (w : Surroundings) (i : ℕ) (client : ClientState) (s : Shared)
    (sent : List Text)
    → process_loop password fd w zero i client s sent
      ≡ record { connected = true; client = client; shared = s; sent = sent }
unfolding process_loop
process_loop-zero password fd w i client s sent = refl

process_loop_step :
    (password : Text) (fd : ℕ) (w : Surroundings) (fuel i : ℕ) (client : ClientState) (s : Shared)
    (sent : List Text)
    → length client.read_buffer ≤ fuel
    → process_loop password fd w fuel i client s sent
      ≡ process_loop password fd w (suc fuel) i client s sent
process_loop_step password fd w zero i client s sent h =
    process_loop-zero password fd w i client s sent
    ∙ empty_round password fd w i client s sent
        (λ i client s sent. process_loop password fd w zero i client s sent) client.read_buffer h
    ∙ sym (process_loop-round password fd w zero i client s sent)
process_loop_step password fd w (suc fuel) i client s sent h =
    rw (process_loop-round password fd w fuel i client s sent) (
      rw (process_loop-round password fd w (suc fuel) i client s sent) (
        round_eq password fd w i client s sent _ _ (parse_command client.read_buffer)
          (λ j c t out less. process_loop_step password fd w fuel j c t out (omega arith))
          (parse_command-IsWithin client.read_buffer)))

-- Any fuel from the length of the buffer on gives the same result: the loop has ended before it
-- runs out.
pub process_loop_enough :
    (password : Text) (fd : ℕ) (w : Surroundings) (more i : ℕ) (client : ClientState) (s : Shared)
    (sent : List Text)
    → process_loop password fd w (more + length client.read_buffer) i client s sent
      ≡ process_loop password fd w (length client.read_buffer) i client s sent
process_loop_enough password fd w zero i client s sent =
    ap (λ fuel. process_loop password fd w fuel i client s sent) (omega arith)
process_loop_enough password fd w (suc more) i client s sent =
    ap (λ fuel. process_loop password fd w fuel i client s sent)
      (add.suc more (length client.read_buffer))
    ∙ sym (
        process_loop_step password fd w (more + length client.read_buffer) i client s sent
          (omega arith))
    ∙ process_loop_enough password fd w more i client s sent
