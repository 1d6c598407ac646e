-- ===== src/Client/Exchange.antt =====
-- A command's way through the program: typed at `Client::send_command` of src/networking/client.cpp,
-- received by `Server::process_client` of src/networking/server.cpp, and its response shown.
use my_redis.Prelude.{
  arith, ℕ, ◌+◌, ◌≤◌, ◌≡◌, some, List, [], ◌∷◌, ◌++◌, Bool, true, false, ◌==◌, All, length, drop,
  is_empty, refl, ◌∙◌, ap, sym, drop-length_append, length-append,
}
use mathlib.Core.List.{append-nil}
use my_redis.Prelude.Text.{Text, text_eq, codes}
use my_redis.Number.{upper}
use my_redis.Parser.{Command}
use my_redis.Parser.Printer.{print_line}
use my_redis.Socket.{SocketWrite, write_exact}
use my_redis.Resp.Frames.{OneLine}
use my_redis.Resp.Serialize.{simple_string, error, integer, bulk_string, serialize_response}
use my_redis.Server.{
  Surroundings, Server, received, max_buffer, max_read, respond, client_at, process_client,
}
use my_redis.Server.Wire.{as_line}
use my_redis.Server.Pipeline.{idle, serve, process_client-bytes_of}
use my_redis.Client.{parse_value, parse_resp_value, read_resp_response, send_command}
use my_redis.Client.Replies.{
  Reply, ok, pong, queued, nil, err, wrong_type, no_auth, number, value, text_of, IsReply, wire,
  serialize_response-wire, parse_resp_value-serialize_response,
}

wire_some : (r : Reply) → is_empty (wire r) ≡ false
unfolding simple_string error integer bulk_string
wire_some ok = refl
wire_some pong = refl
wire_some queued = refl
wire_some nil = refl
wire_some (err m) = refl
wire_some (wrong_type m) = refl
wire_some (no_auth m) = refl
wire_some (number n) = refl
wire_some (value s) = refl

read_once :
    (bytes shown : Text)
    → is_empty bytes ≡ false
    → parse_resp_value bytes ≡ some (shown, length bytes)
    → read_resp_response (bytes ∷ []) [] ≡ some (shown, [])
unfolding read_resp_response parse_resp_value parse_value
read_once bytes shown e p =
    rw (e, p)
      (ap (λ s. some (shown, drop (length bytes) s)) (sym (append-nil bytes))
        ∙ ap (λ s. some (shown, s)) (drop-length_append bytes []))

sent_once :
    (socket_write : SocketWrite) (line bytes shown : Text)
    → write_exact socket_write (line ++ (13 ∷ 10 ∷ [])) ≡ (true, line ++ (13 ∷ 10 ∷ []))
    → read_resp_response (bytes ∷ []) [] ≡ some (shown, [])
    → send_command socket_write (bytes ∷ []) line [] ≡ (shown, true, [])
unfolding send_command
sent_once socket_write line bytes shown e r = rw (send_command, e, r) refl

-- The server's side, for one line.
answered :
    (fd : ℕ) (w : Surroundings) (name : Text) (args : List Text) (server : Server)
    → (client_at fd server).read_buffer ≡ []
    → OneLine name
    → All OneLine args
    → (upper name == codes "QUIT") ≡ false
    → length (print_line name args) + 2 ≤ max_buffer
    → ((j : ℕ) → w.sent_ok j ≡ true)
    → let cmd : Command = record { name = upper name; args = args } in
      let client = idle (client_at fd server).authenticated in
      (process_client fd w (received (print_line name args ++ (13 ∷ 10 ∷ []))) server).2
      ≡ serialize_response (respond server.password fd (w.context 0) cmd client server.shared).0
        ∷ []
unfolding serve
answered fd w name args server empty plain all live small sends =
    let line = print_line name args ++ (13 ∷ 10 ∷ []) in
    ap (λ b. (process_client fd w (received b) server).2) (sym (append-nil line))
    ∙ ap (λ (r : Bool × Server × List Text). r.2)
        (process_client-bytes_of fd w (record { form = as_line; name = name; args = args } ∷ [])
          server empty (((plain, all), live), tt)
          (omega (
            arith,
            small,
            length-append line [],
            length-append (print_line name args) (13 ∷ 10 ∷ []),
          ))
          sends)

-- A command that is typed at the client as words in double quotes, other than QUIT, goes through the
-- whole program: the server parses the line, executes the command and serializes the response, and
-- the client shows what the handler answered and keeps the connection with nothing left in its
-- buffer. The line and its CRLF have 4096 bytes at most, no word has a carriage return, and the
-- server gets them in one read with nothing in its buffer of this client. The system takes the whole
-- line and every response. The response is OK, PONG, QUEUED, an error of one line, a 64-bit number, nil
-- or a quoted value, has 4096 bytes at most as it is sent, and reaches the client in one read.
pub send_command-process_client :
    (socket_write : SocketWrite) (fd : ℕ) (w : Surroundings) (name : Text) (args : List Text)
    (r : Reply) (server : Server)
    → (client_at fd server).read_buffer ≡ []
    → OneLine name
    → All OneLine args
    → (upper name == codes "QUIT") ≡ false
    → length (print_line name args) + 2 ≤ max_read
    → ((j : ℕ) → w.sent_ok j ≡ true)
    → write_exact socket_write (print_line name args ++ (13 ∷ 10 ∷ []))
      ≡ (true, print_line name args ++ (13 ∷ 10 ∷ []))
    → (respond server.password fd
        (w.context 0)
        (record { name = upper name; args = args })
        (idle (client_at fd server).authenticated)
        server.shared).0
      ≡ text_of r
    → IsReply r
    → length (serialize_response (text_of r)) ≤ max_read
    → let taken = (write_exact socket_write (print_line name args ++ (13 ∷ 10 ∷ []))).1 in
      send_command socket_write
        (process_client fd w (received taken) server).2
        (print_line name args)
        []
      ≡ (text_of r, true, [])
send_command-process_client socket_write fd w name args r server empty plain all live small sends
      whole answer valid short =
    let line = print_line name args ++ (13 ∷ 10 ∷ []) in
    let bytes = serialize_response (text_of r) in
    ap
      (λ (t : Bool × Text).
        send_command socket_write (process_client fd w (received t.1) server).2
          (print_line name args) [])
      whole
    ∙ ap (λ reads. send_command socket_write reads (print_line name args) [])
        (answered fd w name args server empty plain all live (omega (arith, small)) sends
          ∙ ap (λ text. serialize_response text ∷ []) answer)
    ∙ sent_once socket_write (print_line name args) bytes (text_of r) whole (
        read_once bytes (text_of r)
          (ap (λ (s : Text). is_empty s) (serialize_response-wire r valid) ∙ wire_some r)
          (ap parse_resp_value (sym (append-nil bytes))
            ∙ parse_resp_value-serialize_response r [] valid))
