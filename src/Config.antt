-- ===== src/Config.antt =====
-- The configuration: include/config/config.h and src/config/config.cpp, and the choice of the port
-- in src/server/main.cpp.
pub mod Files
mod Tests
use my_redis.Prelude.{
  ℕ, Option, none, some, List, [], ◌∷◌, Bool, true, false, ◌||◌, ◌==◌, nat_eq, is_empty,
  if◌then◌else◌,
}
use my_redis.Prelude.Int.{ℤ, pos}
use my_redis.Prelude.Text.{Text, text_eq, codes}
use my_redis.Number.{stoi, skip_space}
use my_redis.Parser.{unquoted}
use my_redis.Dict.{Dict, find, assign}
use my_redis.Resp.Serialize.{lines}

abbrev pub Config : Type 0
Config = Dict Text Text

unfoldable pub set : Text → Text → Config → Config
set key value config = assign key value config

unfoldable pub set_defaults : Config → Config
unfolding set
set_defaults config = set (codes "maxmemory") (codes "0") (
    set (codes "loglevel") (codes "notice") (
      set (codes "save") (codes "0") (
        set (codes "requirepass") []
          (set (codes "bind") (codes "0.0.0.0") (set (codes "port") (codes "6399") config)))))

-- " \t\r\n"
unfoldable pub is_blank : ℕ → Bool
is_blank c = c == 32 || c == 9 || c == 13 || c == 10

unfoldable pub trim_left : Text → Text
unfolding is_blank
trim_left [] = []
trim_left (c ∷ s) = let rest = trim_left s in if is_blank c then rest else c ∷ s

-- `value.substr(0, end + 1)`, where there is a character that is not blank; none where there is
-- not.
unfoldable pub trim_right? : Text → Option Text
unfolding is_blank
trim_right? [] = none
trim_right? (c ∷ s) = elim (trim_right? s) [
  | some t ↦ some (c ∷ t)
  | none ↦ if is_blank c then none else some (c ∷ [])
]

-- A value of blanks alone stays as it is.
unfoldable pub trim_right : Text → Text
unfolding trim_right?
trim_right value = elim (trim_right? value) [ none ↦ value | some t ↦ t ]

-- `iss >> key`, `getline(iss >> ws, value)`: a word, and what follows the spaces behind it.
unfoldable pub load_pair : Text → Config → Config
unfolding set trim_right
load_pair line config =
    let (key, rest) = unquoted (skip_space line) in
    if is_empty key then config else set key (trim_right (skip_space rest)) config

unfoldable pub load_line : Text → Config → Config
unfolding trim_left load_pair
load_line line config = elim (trim_left line) [
  | [] ↦ config
  | c ∷ s ↦ if c == b'#' then config else load_pair (c ∷ s) config
]

unfoldable pub load_lines : List Text → Config → Config
unfolding load_line
load_lines [] config = config
load_lines (l ∷ ls) config = load_lines ls (load_line l config)

-- `none` is a file that cannot be opened.
unfoldable pub load_file : Option Text → Config → Bool × Config
unfolding load_lines
load_file none config = (false, config)
load_file (some content) config = (true, load_lines (lines content) config)

unfoldable pub get : Text → Config → Text
get key config = elim (find key config) [ none ↦ [] | some value ↦ value ]

abbrev or_default : Option ℤ → ℤ → ℤ
or_default none d = d
or_default (some n) d = n

unfoldable pub port : Config → ℤ
unfolding get
port config = or_default (stoi (get (codes "port") config)) (pos 6399)

unfoldable pub bind_addr : Config → Text
unfolding get
bind_addr config =
    let addr = get (codes "bind") config in if is_empty addr then codes "0.0.0.0" else addr

unfoldable pub password : Config → Text
unfolding get
password config = get (codes "requirepass") config

unfoldable pub save_interval : Config → ℤ
unfolding get
save_interval config = or_default (stoi (get (codes "save") config)) (pos 0)
