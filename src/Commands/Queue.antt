-- ===== src/Commands/Queue.antt =====
-- MULTI, the commands behind it, and EXEC in src/commands/command_handler.cpp, for a handler that
-- is kept.
use my_redis.Prelude.{
  arith, ℕ, ◌+◌, ◌≡◌, if◌then◌else◌, is_empty, List, [], ◌∷◌, ◌++◌, Bool, true, false, ◌||◌, ◌==◌,
  refl, ◌∙◌, sym, ap,
}
use mathlib.Core.List.{append_assoc, append-nil}
use my_redis.Prelude.Text.{Text, text_eq, text_beq, codes}
use my_redis.Number.{to_string}
use my_redis.Parser.{Command}
use my_redis.PubSub.{is_subscribed}
use my_redis.Commands.{Context, Shared}
use my_redis.Commands.Dispatch.{execute_single}
use my_redis.Commands.Reply.{numbered_from}
use my_redis.Commands.Transactions.{
  Handler, State, new_handler, handle_multi, handle_exec, run_transaction, execute_queue,
  exec_response, execute_or_queue, execute,
}

-- The commands that a transaction does not queue.
unfoldable pub is_control : Text → Bool
is_control name =
    name == codes "MULTI"
    || name == codes "EXEC"
    || name == codes "DISCARD"
    || name == codes "WATCH"

abbrev pub AllQueued : List Command → Type 0
AllQueued [] = Unit {0}
AllQueued (cmd ∷ cmds) = (is_control cmd.name ≡ false) × AllQueued cmds

-- The state after a client's commands, each in a context of its own.
unfoldable pub send_all : ℕ → List (Context × Command) → State → State
send_all client [] st = st
send_all client ((c, cmd) ∷ rest) st = send_all client rest (execute client c cmd st).1

unfoldable pub commands_of : List (Context × Command) → List Command
commands_of [] = []
commands_of ((c, cmd) ∷ rest) = cmd ∷ commands_of rest

execute-queued :
    (client : ℕ) (c : Context) (cmd : Command) (h : Handler) (s : Shared)
    → is_subscribed client s.pubsub ≡ false
    → h.in_multi ≡ true
    → is_control cmd.name ≡ false
    → (execute client c cmd (h, s)).1 ≡ (record h { tx_queue = h.tx_queue ++ (cmd ∷ []) }, s)
unfolding execute execute_or_queue is_control
execute-queued client c cmd h s free multi plain = ground arith

send_all-queues :
    (client : ℕ) (sent : List (Context × Command)) (h : Handler) (s : Shared)
    → is_subscribed client s.pubsub ≡ false
    → h.in_multi ≡ true
    → AllQueued (commands_of sent)
    → send_all client sent (h, s) ≡ (record h { tx_queue = h.tx_queue ++ commands_of sent }, s)
unfolding send_all commands_of
send_all-queues client [] h s free multi plain =
    ap (λ q. (record h { tx_queue = q }, s)) (sym (append-nil h.tx_queue))
send_all-queues client ((c, cmd) ∷ rest) h s free multi (p, plain) =
    ap (λ st. send_all client rest st) (execute-queued client c cmd h s free multi p)
    ∙ send_all-queues client rest (record h { tx_queue = h.tx_queue ++ (cmd ∷ []) }) s free multi
        plain
    ∙ ap (λ q. (record h { tx_queue = q }, s))
        (append_assoc h.tx_queue (cmd ∷ []) (commands_of rest))

-- The handler of a transaction without watched keys.
abbrev in_transaction : List Command → Handler
in_transaction queue = record new_handler { in_multi = true; tx_queue = queue }

execute-multi :
    (client : ℕ) (c : Context) (args : List Text) (s : Shared)
    → is_subscribed client s.pubsub ≡ false
    → (execute client c (record { name = codes "MULTI"; args = args }) (new_handler, s)).1
      ≡ (in_transaction [], s)
unfolding execute execute_or_queue handle_multi text_beq
execute-multi client c args s free = rw free

execute-exec :
    (client : ℕ) (c : Context) (args : List Text) (queue : List Command) (s : Shared)
    → is_subscribed client s.pubsub ≡ false
    → execute client c (record { name = codes "EXEC"; args = args }) (in_transaction queue, s) ≡ (
      exec_response (execute_queue client c queue s).0,
      (new_handler, (execute_queue client c queue s).1),
    )
unfolding execute execute_or_queue handle_exec run_transaction text_beq
execute-exec client c args queue s free = rw free

-- The commands one after another, each in the state that the one before it left: what each of them
-- answers, and the state in the end.
pub data Runs (client : ℕ) (c : Context) : List Command → Shared → List Text → Shared → Type 0 where
  nothing : {s : Shared} → Runs client c [] s [] s
  one_more :
      {cmd : Command} {cmds : List Command} {s final : Shared} {results : List Text}
      → Runs client c cmds (execute_single client c cmd s).1 results final
      → Runs client c (cmd ∷ cmds) s ((execute_single client c cmd s).0 ∷ results) final

-- The lines `1) result`, `2) result`, and so on, from a number on.
unfoldable pub result_lines : ℕ → List Text → List Text
result_lines n [] = []
result_lines n (r ∷ rs) = (to_string n ++ (codes ") " ++ r)) ∷ result_lines (n + 1) rs

-- Lines with a newline between each two of them.
unfoldable pub joined : List Text → Text
joined [] = []
joined (l ∷ []) = l
joined (l ∷ k ∷ ls) = l ++ (codes "\n" ++ joined (k ∷ ls))

unfoldable pub response_text : List Text → Text
unfolding result_lines joined
response_text results =
    if is_empty results then codes "(empty list)" else joined (result_lines 1 results)

numbered_from-joined :
    (n : ℕ) (results : List Text) → numbered_from n results ≡ joined (result_lines (n + 1) results)
unfolding numbered_from joined result_lines
numbered_from-joined n [] = refl
numbered_from-joined n (x ∷ []) = refl
numbered_from-joined n (x ∷ y ∷ rest) =
    ap (λ t. to_string (n + 1) ++ (41 ∷ 32 ∷ (x ++ (10 ∷ t))))
      (numbered_from-joined (n + 1) (y ∷ rest))
    ∙ sym (
        append_assoc (to_string (n + 1)) (41 ∷ 32 ∷ x)
          (10 ∷ joined (result_lines (n + 1 + 1) (y ∷ rest))))

exec_response_lem : (results : List Text) → exec_response results ≡ response_text results
unfolding exec_response response_text
exec_response_lem [] = refl
exec_response_lem (r ∷ rs) = numbered_from-joined 0 (r ∷ rs)

execute_queue-Runs :
    (client : ℕ) (c : Context) (cmds : List Command) (s : Shared)
    → Runs client c cmds s (execute_queue client c cmds s).0 (execute_queue client c cmds s).1
unfolding execute_queue
execute_queue-Runs client c [] s = nothing
execute_queue-Runs client c (cmd ∷ cmds) s =
    one_more (execute_queue-Runs client c cmds (execute_single client c cmd s).1)

-- The state after MULTI and the commands behind it, from a new handler.
abbrev pub after_multi : ℕ → Context → List Text → List (Context × Command) → Shared → State
after_multi client c args sent s =
    send_all client ((c, record { name = codes "MULTI"; args = args }) ∷ sent) (new_handler, s)

-- MULTI, any commands that a transaction queues, and EXEC, from a new handler of a client that is
-- in no channel: until EXEC nothing shared changes. EXEC runs the commands in their order, each in
-- the state that the one before it left, and all in the context of EXEC; it answers a line `i) `
-- with the result for each of them, numbered from 1, or that the list is empty where there are
-- none, and leaves a new handler.
pub execute-exec_queue :
    (client : ℕ) (c0 c : Context) (sent : List (Context × Command)) (args0 args : List Text)
    (s : Shared)
    → is_subscribed client s.pubsub ≡ false
    → AllQueued (commands_of sent)
    → ((after_multi client c0 args0 sent s).1 ≡ s)
      × ((results : List Text) × (final : Shared) × Runs client c (commands_of sent) s results final
          × (execute client c
                (record { name = codes "EXEC"; args = args })
                (after_multi client c0 args0 sent s)
              ≡ (response_text results, (new_handler, final))))
unfolding send_all
execute-exec_queue client c0 c sent args0 args s free plain = (
  ap (λ (st : State). st.1) queued,
  (
    (execute_queue client c (commands_of sent) s).0,
    (execute_queue client c (commands_of sent) s).1,
    execute_queue-Runs client c (commands_of sent) s,
    ap (λ st. execute client c (record { name = codes "EXEC"; args = args }) st) queued
        ∙ execute-exec client c args (commands_of sent) s free
        ∙ ap (λ text. (text, (new_handler, (execute_queue client c (commands_of sent) s).1)))
            (exec_response_lem (execute_queue client c (commands_of sent) s).0),
  ),
)
  where
    queued :
        send_all client sent
          (execute client c0 (record { name = codes "MULTI"; args = args0 }) (new_handler, s)).1
        ≡ (in_transaction (commands_of sent), s)
    queued =
        ap (λ st. send_all client sent st) (execute-multi client c0 args0 s free)
        ∙ send_all-queues client sent (in_transaction []) s free refl plain
