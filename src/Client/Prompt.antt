-- ===== src/Client/Prompt.antt =====
-- The prompt of src/client/main.cpp against the lines that it sends.
use my_redis.Prelude.{arith, ◌≡◌, List, [], ◌∷◌, is_some, if◌then◌else◌, refl}
use my_redis.Prelude.Text.{Text, text_eq}
use my_redis.Client.Session.{Connection, Input, send, repl}
use my_redis.Client.Quit.{is_white, is_skipped_lem, quits, is_quit_lem}

-- The lines that are not of white space alone, up to the first that quits.
unfoldable pub commands : List Input → List Input
unfolding is_white quits
commands [] = []
commands (i ∷ inputs) =
    let rest = commands inputs in
    if is_white i.line then rest else if quits i.line then i ∷ [] else i ∷ rest

-- They are sent in turn, as long as the connection is there.
unfoldable pub replies : List Input → Connection → List Text × Connection
unfolding send
replies [] c = ([], c)
replies (i ∷ inputs) c =
    let (response, c') = send i c in
    let (responses, final) = replies inputs c' in
    if is_some c'.fd then (response ∷ responses, final) else (response ∷ [], c')

-- The prompt sends the lines that are not of white space alone up to the first that quits, that one
-- included, prints one response for each, and stops before where the connection is lost. White space
-- is a space, tab, newline, vertical tab, form feed or carriage return, and a line quits exactly if it
-- is any spaces and tabs, the letters of QUIT, each a capital or a small one, and any spaces and tabs.
pub repl-commands :
    (inputs : List Input) (c : Connection) → repl inputs c ≡ replies (commands inputs) c
unfolding repl commands replies
repl-commands [] c = refl
repl-commands (i ∷ inputs) c =
    rw (is_skipped_lem i.line, is_quit_lem i.line)
      (ground (arith, repl-commands inputs c, repl-commands inputs (send i c).1))
