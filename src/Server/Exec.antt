-- ===== src/Server/Exec.antt =====
-- EXEC over a connection, behind other requests: `Server::process_client` of
-- src/networking/server.cpp.
use my_redis.Prelude.{
  arith, ℕ, ◌+◌, ◌≤◌, ◌≡◌, nat_eq, List, [], ◌∷◌, ◌++◌, Bool, true, false, not, ◌&&◌, if◌then◌else◌,
  All, length, is_empty, length-append, ◌∙◌, ap, sym,
}
use my_redis.Prelude.Text.{Text, text_eq, text_beq, codes}
use my_redis.Number.{upper}
use my_redis.PubSub.{is_subscribed}
use my_redis.Resp.Serialize.{serialize_response}
use my_redis.Dict.{assign}
use my_redis.Commands.{Context, Shared}
use my_redis.Commands.Transactions.{
  new_handler, allowed_subscribed, execute_or_queue, handle_exec, execute,
}
use my_redis.Server.{
  ClientState, Surroundings, respond, max_buffer, received, Server, client_at, process_client,
}
use my_redis.Server.Guard.{client_at-assign}
use my_redis.Server.Pipeline.{
  Words, bytes_of, Sendable, command_in, idle, serve, process_client-bytes_of,
}

-- What a client is told, by the password, whether it is authenticated, and whether it is in a channel.
unfoldable pub exec_answer : Text → Bool → Bool → Text
exec_answer password authenticated subscribed =
    if not (is_empty password) && not authenticated
    then codes "NOAUTH Authentication required."
    else if subscribed
    then codes
        "ERR Can't execute 'EXEC': only (P)SUBSCRIBE / (P)UNSUBSCRIBE / PING / QUIT are allowed in this context"
    else codes "ERR EXEC without MULTI"

execute-new_handler :
    (fd : ℕ) (c : Context) (args : List Text) (s : Shared)
    → execute fd c (record { name = codes "EXEC"; args = args }) (new_handler, s)
      ≡ (exec_answer [] false (is_subscribed fd s.pubsub), (new_handler, s))
unfolding execute exec_answer allowed_subscribed execute_or_queue handle_exec text_beq
execute-new_handler fd c args s = ground arith

respond-exec :
    (password : Text) (fd : ℕ) (c : Context) (args : List Text) (client : ClientState) (s : Shared)
    → respond password fd c (record { name = codes "EXEC"; args = args }) client s
      ≡ (exec_answer password client.authenticated (is_subscribed fd s.pubsub), client, s)
unfolding respond exec_answer text_beq
respond-exec password fd c args client s = rw (execute-new_handler fd c args s) (ground arith)

module _ (password : Text) (fd : ℕ) (w : Surroundings) (r : Words) where
  serve-exec :
      (rs : List Words) (i : ℕ) (authenticated : Bool) (s : Shared)
      → upper r.name ≡ codes "EXEC"
      → let before = serve password fd w i rs authenticated s in
        serve password fd w i (rs ++ (r ∷ [])) authenticated s ≡ (
          before.0
              ++ (serialize_response
                    (exec_answer password before.1 (is_subscribed fd before.2.pubsub))
                  ∷ []),
          before.1,
          before.2,
        )
  unfolding serve
  serve-exec [] i authenticated s e =
      ap
        (λ (a : Text × ClientState × Shared). (serialize_response a.0 ∷ [], a.1.authenticated, a.2))
        (ap
            (λ name.
              respond password fd (w.context i) (record { name = name; args = r.args })
                (idle authenticated) s)
            e
          ∙ respond-exec password fd (w.context i) r.args (idle authenticated) s)
  serve-exec (q ∷ rs) i authenticated s e =
      let answer = respond password fd (w.context i) (command_in q) (idle authenticated) s in
      ap
        (λ (served : List Text × Bool × Shared).
          (serialize_response answer.0 ∷ served.0, served.1, served.2))
        (serve-exec rs (i + 1) answer.1.authenticated answer.2 e)

  All-front : (rs : List Words) → All Sendable (rs ++ (r ∷ [])) → All Sendable rs
  All-front [] h = tt
  All-front (q ∷ rs) (h, hs) = (h, All-front rs hs)

  bytes_of-front : (rs : List Words) → length (bytes_of rs) ≤ length (bytes_of (rs ++ (r ∷ [])))
  bytes_of-front [] = omega arith
  bytes_of-front (q ∷ rs) = omega (
    arith,
    bytes_of-front rs,
    length-append _ (bytes_of rs),
    length-append _ (bytes_of (rs ++ (r ∷ []))),
  )

-- The same with one more response, EXEC's.
abbrev with_exec : Text → ℕ → Bool × Server × List Text → Bool × Server × List Text
with_exec password fd (stays, server, sent) = (
  stays,
  server,
  sent
      ++ (serialize_response (
            exec_answer password (client_at fd server).authenticated
              (is_subscribed fd server.shared.pubsub))
          ∷ []),
)

-- EXEC as the last of requests that arrive in one read, at a client with nothing in its buffer:
-- compared with the same requests without it, it changes nothing, and only one more response goes
-- out. That response is never the results of a transaction, not even behind a MULTI and commands of
-- the same client: it is NOAUTH where the server has a password and the client is not authenticated
-- then, the error of a client that may not use EXEC where it is subscribed to a channel then, and
-- that there is no MULTI in every other case. The requests are such as in
-- `process_client-bytes_of`: arrays of words that fit an int, or lines of words in double quotes
-- without a carriage return, of which none is QUIT and which have 64 MB at most, and every send
-- succeeds.
pub process_client-exec :
    (fd : ℕ) (w : Surroundings) (rs : List Words) (r : Words) (server : Server)
    → (client_at fd server).read_buffer ≡ []
    → upper r.name ≡ codes "EXEC"
    → All Sendable (rs ++ (r ∷ []))
    → length (bytes_of (rs ++ (r ∷ []))) ≤ max_buffer
    → ((j : ℕ) → w.sent_ok j ≡ true)
    → let (stays, before, sent) = process_client fd w (received (bytes_of rs)) server in
      process_client fd w (received (bytes_of (rs ++ (r ∷ [])))) server ≡ (
        stays,
        before,
        sent
            ++ (serialize_response (
                  exec_answer server.password
                    (client_at fd before).authenticated
                    (is_subscribed fd before.shared.pubsub))
                ∷ []),
      )
process_client-exec fd w rs r server empty e h small ok =
    let pw = server.password in
    let known = (client_at fd server).authenticated in
    let b = serve pw fd w 0 rs known server.shared in
    let after : Server = record server {
      clients = assign fd (idle b.1) server.clients;
      shared = b.2;
    } in
    process_client-bytes_of fd w (rs ++ (r ∷ [])) server empty h small ok
    ∙ ap
        (λ (served : List Text × Bool × Shared). (
          true,
          record server { clients = assign fd (idle served.1) server.clients; shared = served.2 },
          served.0,
        ))
        (serve-exec pw fd w r rs 0 known server.shared e)
    ∙ ap
        (λ (c : ClientState). (
          true,
          after,
          b.0
              ++ (serialize_response (exec_answer pw c.authenticated (is_subscribed fd b.2.pubsub))
                  ∷ []),
        ))
        (sym (client_at-assign fd (idle b.1) b.2 server))
    ∙ ap (with_exec pw fd) (
        sym (
          process_client-bytes_of fd w rs server empty (All-front pw fd w r rs h)
            (omega (arith, small, bytes_of-front pw fd w r rs)) ok))
