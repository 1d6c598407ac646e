-- ===== src/Client/Tests.antt =====
-- A response that the client shows, and the theorem of this part at it.
use my_redis.Prelude.{true, false, refl}
use my_redis.Prelude.Text.{text_beq}
use my_redis.Number.{upper}
use my_redis.Parser.Printer.{print_line, print_word, print_words, escape}
use my_redis.Socket.{SocketWrite, write_exact, write_loop}
use my_redis.Dict.{find}
use my_redis.Database.{empty_database}
use my_redis.PubSub.{empty_pubsub, is_subscribed}
use my_redis.Persistence.File.{all_well}
use my_redis.Commands.{Context, handle_ping}
use my_redis.Commands.Dispatch.{execute_single}
use my_redis.Commands.Transactions.{execute, execute_or_queue}
use my_redis.Resp.Frames.{no_cr, no_cr-OneLine}
use my_redis.Server.{Surroundings, Server, received, max_read, respond, client_at, process_client}
use my_redis.Server.Pipeline.{idle}
use my_redis.Client.{send_command}
use my_redis.Client.Exchange.{send_command-process_client}
use my_redis.Prelude.{arith, ◌≡◌, ◌≤◌, some, ◌++◌, length}
use my_redis.Prelude.Text.{codes}
use my_redis.Prelude.{[], ◌∷◌, List}
use my_redis.Prelude.Int.{pos}
use my_redis.Number.{int_to_string, to_string, decimal}
use my_redis.Client.Session.{Connection, Input, repl}
use my_redis.Client.Prompt.{commands, replies, repl-commands}
use my_redis.Client.{parse_resp_value}
use my_redis.Resp.Serialize.{serialize_response}
use my_redis.Client.Replies.{Reply, text_of, parse_resp_value-serialize_response}

abbrev typed : List Input
typed =
    record {
      line = codes "PING";
      socket_write = λ i s. pos (length s);
      reads = codes "+PONG\r\n" ∷ [];
    }
    ∷ record { line = codes "  "; socket_write = λ i s. pos (length s); reads = [] }
    ∷ record {
      line = codes " quit";
      socket_write = λ i s. pos (length s);
      reads = codes "+OK\r\n" ∷ [];
    }
    ∷ record { line = codes "GET k"; socket_write = λ i s. pos (length s); reads = [] }
    ∷ []

abbrev connection : Connection
connection = record { fd = some 3; buffer = [] }

repl-commands_example : repl typed connection ≡ replies (commands typed) connection
repl-commands_example = repl-commands typed connection

parse_resp_value-serialize_response_example :
    parse_resp_value (serialize_response (text_of (Reply.number (pos 42))) ++ codes "+OK\r\n")
    ≡ some (codes "(integer) 42", length (serialize_response (text_of (Reply.number (pos 42)))))
unfolding int_to_string to_string decimal
parse_resp_value-serialize_response_example =
    parse_resp_value-serialize_response (Reply.number (pos 42)) (codes "+OK\r\n") (omega arith)

abbrev context : Context
context = record {
  now = 1000000000;
  later = 1000000500;
  send_response = λ fd bytes. true;
  outcome = all_well;
  server = some (60, 1);
}

abbrev surroundings : Surroundings
surroundings = record { context = λ i. context; sent_ok = λ i. true }

abbrev server : Server
server = record {
  clients = (3, idle false) ∷ [];
  shared = record { db = empty_database; pubsub = empty_pubsub; files = [] };
  password = [];
}

abbrev write_all : SocketWrite
write_all i s = pos (length s)

ping_written :
    write_exact write_all (print_line (codes "ping") [] ++ (13 ∷ 10 ∷ []))
    ≡ (true, print_line (codes "ping") [] ++ (13 ∷ 10 ∷ []))
unfolding write_exact write_loop print_line print_word print_words escape
ping_written = refl

ping_answered :
    (respond server.password 3
      (surroundings.context 0)
      (record { name = upper (codes "ping"); args = [] })
      (idle (client_at 3 server).authenticated)
      server.shared).0
    ≡ codes "PONG"
unfolding respond client_at find upper text_beq execute execute_or_queue execute_single handle_ping
    is_subscribed
ping_answered = refl

pong_short : length (serialize_response (codes "PONG")) ≤ max_read
unfolding serialize_response text_beq
pong_short = omega arith

send_command-process_client_example :
    let taken = (write_exact write_all (print_line (codes "ping") [] ++ (13 ∷ 10 ∷ []))).1 in
    send_command write_all
      (process_client 3 surroundings (received taken) server).2
      (print_line (codes "ping") [])
      []
    ≡ (codes "PONG", true, [])
unfolding client_at find upper text_beq no_cr print_line print_word print_words escape
send_command-process_client_example =
    send_command-process_client write_all 3 surroundings (codes "ping") [] Reply.pong server refl
      (no_cr-OneLine (codes "ping") refl) tt refl (omega arith) (λ j. refl) ping_written
      ping_answered tt pong_short
