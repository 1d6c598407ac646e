-- ===== src/Server/Pipeline.antt =====
-- Requests that reach `Server::process_client` of src/networking/server.cpp together.
use my_redis.Prelude.{
  arith, ℕ, zero, suc, ◌+◌, ◌≤◌, ◌≡◌, List, [], ◌∷◌, ◌++◌, Bool, true, false, ltb, ◌==◌, nat_eq,
  refl, All, length, drop-length_append, ◌∙◌, ap,
}
use mathlib.Core.List.{append_assoc, append-nil}
use my_redis.Prelude.Text.{Text, text_eq, codes}
use my_redis.Number.{upper}
use my_redis.Parser.{Command}
use my_redis.Resp.{parsed, parse_command}
use my_redis.Server.Wire.{Form, written, IsWritable, parse_command-written, length-written}
use my_redis.Resp.Serialize.{serialize_response}
use my_redis.Dict.{assign}
use my_redis.Commands.{Context, Shared}
use my_redis.Server.Round.{round, process_loop-round}
use my_redis.Server.{
  ClientState, Surroundings, Processed, respond, process_loop, max_buffer, received, Server,
  client_at, process_client,
}

-- The words of one request, and the form in which it is sent.
pub record Words : Type 0 where
  pub form : Form
  pub name : Text
  pub args : List Text

abbrev pub bytes_of : List Words → Text
bytes_of [] = []
bytes_of (r ∷ rs) = written r.form r.name r.args ++ bytes_of rs

abbrev pub Sendable : Words → Type 0
Sendable r = IsWritable r.form r.name r.args × ((upper r.name == codes "QUIT") ≡ false)

abbrev pub command_in : Words → Command
command_in r = record { name = upper r.name; args = r.args }

-- A client with nothing in its buffer.
abbrev pub idle : Bool → ClientState
idle authenticated = record { read_buffer = []; authenticated = authenticated }

-- One response after another, and whether the client is authenticated at the end.
unfoldable pub serve :
    Text → ℕ → Surroundings → ℕ → List Words → Bool → Shared → List Text × Bool × Shared
serve password fd w i [] authenticated s = ([], authenticated, s)
serve password fd w i (r ∷ rs) authenticated s =
    let (response, client, s') =
      respond password fd (w.context i) (command_in r) (idle authenticated) s in
    let (responses, last, final) = serve password fd w (i + 1) rs client.authenticated s' in
    (serialize_response response ∷ responses, last, final)

respond_buffer :
    (password : Text) (fd : ℕ) (c : Context) (cmd : Command) (buffer : Text) (authenticated : Bool)
    (s : Shared)
    → respond password fd c cmd (record { read_buffer = buffer; authenticated = authenticated }) s
      ≡ (
        (respond password fd c cmd (idle authenticated) s).0,
        record {
          read_buffer = buffer;
          authenticated = (respond password fd c cmd (idle authenticated) s).1.authenticated;
        },
        (respond password fd c cmd (idle authenticated) s).2,
      )
unfolding respond
respond_buffer password fd c cmd buffer authenticated s = ground arith

module _ (password : Text) (fd : ℕ) (w : Surroundings) where
  -- One request at the front of the buffer.
  round-request :
      (i : ℕ) (r : Words) (rest : Text) (authenticated : Bool) (s : Shared) (sent : List Text)
      (next : ℕ → ClientState → Shared → List Text → Processed)
      → Sendable r
      → length rest ≤ max_buffer
      → w.sent_ok i ≡ true
      → let answer = respond password fd (w.context i) (command_in r) (idle authenticated) s in
        round password fd w i
          (record {
            read_buffer = written r.form r.name r.args ++ rest;
            authenticated = authenticated;
          })
          s
          sent
          next
          (parsed (command_in r) (length (written r.form r.name r.args)))
        ≡ next
            (i + 1)
            (record { read_buffer = rest; authenticated = answer.1.authenticated })
            answer.2
            (sent ++ (serialize_response answer.0 ∷ []))
  unfolding round
  round-request i r rest authenticated s sent next (fits, plain) small ok =
      rw
        (
          drop-length_append (written r.form r.name r.args) rest,
          within (length rest) small,
          plain,
          ok,
          respond_buffer password fd (w.context i) (command_in r) rest authenticated s,
        )
        refl
    where
      within : (n : ℕ) → n ≤ max_buffer → ltb max_buffer n ≡ false
      within n h = ground arith

  process_loop-bytes_of :
      (rs : List Words) (fuel i : ℕ) (authenticated : Bool) (s : Shared) (sent : List Text)
      → All Sendable rs
      → length (bytes_of rs) ≤ max_buffer
      → length (bytes_of rs) ≤ fuel
      → ((j : ℕ) → w.sent_ok j ≡ true)
      → process_loop password fd w fuel i
          (record { read_buffer = bytes_of rs; authenticated = authenticated })
          s
          sent
        ≡ record {
          connected = true;
          client = idle (serve password fd w i rs authenticated s).1;
          shared = (serve password fd w i rs authenticated s).2;
          sent = sent ++ (serve password fd w i rs authenticated s).0;
        }
  unfolding serve process_loop parse_command
  process_loop-bytes_of [] zero i authenticated s sent h small enough ok = rw append-nil
  process_loop-bytes_of [] (suc fuel) i authenticated s sent h small enough ok = rw append-nil
  process_loop-bytes_of (r ∷ rs) zero i authenticated s sent h small enough ok =
      absurd (omega (arith, length-written r.form r.name r.args (bytes_of rs)))
  process_loop-bytes_of (r ∷ rs) (suc fuel) i authenticated s sent (h, hs) small enough ok =
      let answer = respond password fd (w.context i) (command_in r) (idle authenticated) s in
      process_loop-round password fd w fuel i _ s sent
      ∙ ap
          (λ p.
            round password fd w i
              (record { read_buffer = bytes_of (r ∷ rs); authenticated = authenticated }) s sent
              (λ i client s sent. process_loop password fd w fuel i client s sent) p)
          (parse_command-written r.form r.name r.args (bytes_of rs) h.0)
      ∙ round-request i r (bytes_of rs) authenticated s sent
          (λ i client s sent. process_loop password fd w fuel i client s sent) h
          (omega (arith, length-written r.form r.name r.args (bytes_of rs))) (ok i)
      ∙ process_loop-bytes_of rs fuel (i + 1) answer.1.authenticated answer.2
          (sent ++ (serialize_response answer.0 ∷ [])) hs
          (omega (arith, length-written r.form r.name r.args (bytes_of rs)))
          (omega (arith, length-written r.form r.name r.args (bytes_of rs))) ok
      ∙ ap
          (λ (out : List Text). record {
            connected = true;
            client = idle (serve password fd w i (r ∷ rs) authenticated s).1;
            shared = (serve password fd w i (r ∷ rs) authenticated s).2;
            sent = out;
          })
          (append_assoc sent (serialize_response answer.0 ∷ [])
            (serve password fd w (i + 1) rs answer.1.authenticated answer.2).0)

-- Requests that arrive in one read, at a client with nothing in its buffer, are all answered: each
-- gets its response, in their order, as if they came one by one, the client stays, and nothing is
-- left in its buffer. Each is an array of bulk strings whose words fit an int, or a line of words in
-- double quotes without a carriage return; none of them is QUIT, they have 64 MB at most, and every
-- send succeeds.
pub process_client-bytes_of :
    (fd : ℕ) (w : Surroundings) (rs : List Words) (server : Server)
    → (client_at fd server).read_buffer ≡ []
    → All Sendable rs
    → length (bytes_of rs) ≤ max_buffer
    → ((j : ℕ) → w.sent_ok j ≡ true)
    → let served =
        serve server.password fd w 0 rs (client_at fd server).authenticated server.shared in
      process_client fd w (received (bytes_of rs)) server ≡ (
        true,
        record server { clients = assign fd (idle served.1) server.clients; shared = served.2 },
        served.0,
      )
unfolding process_client
process_client-bytes_of fd w rs server empty h small ok =
    ap
      (λ (p : Processed). (
        p.connected,
        record server { clients = assign fd p.client server.clients; shared = p.shared },
        p.sent,
      ))
      (ap
          (λ b.
            process_loop server.password fd w (length (b ++ bytes_of rs)) 0
              (record {
                read_buffer = b ++ bytes_of rs;
                authenticated = (client_at fd server).authenticated;
              })
              server.shared [])
          empty
        ∙ process_loop-bytes_of server.password fd w rs (length (bytes_of rs)) 0
            (client_at fd server).authenticated server.shared [] h small (omega arith) ok)
