-- ===== src/Server/Round.antt =====
-- One round of the loop over the read buffer in `Server::process_client` of
-- src/networking/server.cpp, apart from the rest of the loop.
use my_redis.Prelude.{
  ℕ, zero, suc, ◌+◌, ◌≡◌, List, [], ◌∷◌, ◌++◌, true, ltb, ◌==◌, nat_eq, if◌then◌else◌, refl, drop,
  length,
}
use my_redis.Prelude.Text.{Text, text_eq, codes}
use my_redis.Resp.{RespParseResult, parsed, need_more, protocol_error, parse_command}
use my_redis.Resp.Serialize.{serialize_response, simple_string, error}
use my_redis.Commands.{Shared}
use my_redis.Server.{
  ClientState, Surroundings, Processed, respond, process_loop, hang_up, max_buffer,
}

-- One round, given what the parser says and the rest of the loop.
unfoldable pub round :
    Text
    → ℕ
    → Surroundings
    → ℕ
    → ClientState
    → Shared
    → List Text
    → (ℕ → ClientState → Shared → List Text → Processed)
    → RespParseResult
    → Processed
round password fd w i client s sent next r = elim r [
  | protocol_error n ↦ hang_up client s (sent ++ (error (codes "ERR Protocol error") ∷ []))
  | need_more n ↦ elim n [
    | zero ↦ record { connected = true; client = client; shared = s; sent = sent }
    | suc m ↦ next i (record client { read_buffer = drop (suc m) client.read_buffer }) s sent
  ]
  | parsed cmd n ↦
      let client : ClientState = record client { read_buffer = drop n client.read_buffer } in
      let (response, client', s') = respond password fd (w.context i) cmd client s in
      let sent' = sent ++ (serialize_response response ∷ []) in
      let rest = next (i + 1) client' s' sent' in
      if ltb max_buffer (length client.read_buffer)
      then hang_up client s sent
      else if cmd.name == codes "QUIT"
      then hang_up client s (sent ++ (simple_string (codes "OK") ∷ []))
      else if w.sent_ok i
      then rest
      else hang_up client' s' sent'
]

pub process_loop-round :
    (password : Text) (fd : ℕ) (w : Surroundings) (fuel i : ℕ) (client : ClientState) (s : Shared)
    (sent : List Text)
    → process_loop password fd w (suc fuel) i client s sent
      ≡ round password fd w i client s sent
          (λ i client s sent. process_loop password fd w fuel i client s sent)
          (parse_command client.read_buffer)
unfolding process_loop round
process_loop-round password fd w fuel i client s sent = refl
