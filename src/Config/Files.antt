-- ===== src/Config/Files.antt =====
-- Configuration files that `Config::load_file` of src/config/config.cpp reads.
use my_redis.Prelude.{◌≡◌, List, [], ◌∷◌, ◌++◌, Bool, true, false, not, ◌==◌, nat_eq, if◌then◌else◌}
use my_redis.Prelude.Text.{Text}
use my_redis.Number.{is_space}
use my_redis.Config.{Config, set, is_blank}

-- A line of a file: a pair, a comment, or nothing but blanks.
pub data Line : Type 0 where
  pair : Text → Text → Line
  comment : Text → Line
  blank : Text → Line

-- A word: what can stand in front of the space.
abbrev pub is_word : Text → Bool
is_word [] = true
is_word (c ∷ s) = let rest = is_word s in if is_space c then false else rest

abbrev pub begins_tight : Text → Bool
begins_tight [] = false
begins_tight (c ∷ s) = not (is_space c)

abbrev pub ends_tight : Text → Bool
ends_tight [] = false
ends_tight (c ∷ []) = not (is_blank c)
ends_tight (c ∷ d ∷ s) = ends_tight (d ∷ s)

abbrev pub all_blank : Text → Bool
all_blank [] = true
all_blank (c ∷ s) = let rest = all_blank s in if is_blank c then rest else false

abbrev is_comment : Text → Bool
is_comment [] = false
is_comment (c ∷ s) = c == b'#'

-- A key is a word that begins with no '#', and a value begins and ends with no white space.
abbrev pub IsLine : Line → Type 0
IsLine (pair key value) =
    (begins_tight key ≡ true)
    × (is_word key ≡ true)
    × (is_comment key ≡ false)
    × (begins_tight value ≡ true)
    × (ends_tight value ≡ true)
IsLine (comment s) = Unit {0}
IsLine (blank s) = all_blank s ≡ true

abbrev pub text_of : Line → Text
text_of (pair key value) = key ++ (32 ∷ value)
text_of (comment s) = b'#' ∷ s
text_of (blank s) = s

abbrev pub apply : Line → Config → Config
apply (pair key value) config = set key value config
apply _ config = config

abbrev pub apply_all : List Line → Config → Config
apply_all [] config = config
apply_all (l ∷ ls) config = apply_all ls (apply l config)

-- Each line ends with a newline.
abbrev pub print : List Line → Text
print [] = []
print (l ∷ ls) = text_of l ++ (10 ∷ print ls)

abbrev pub has_no_newline : Text → Bool
has_no_newline [] = true
has_no_newline (c ∷ s) = let rest = has_no_newline s in if c == 10 then false else rest
