-- ===== src/Startup/Ports.antt =====
-- The port that src/server/main.cpp chooses.
use my_redis.Prelude.{
  ◌≡◌, Option, none, some, [], ◌∷◌, Bool, false, ◌&&◌, ltb, leb, ◌==◌, nat_eq, if◌then◌else◌, refl,
  Bool-cases, inl, inr, ap, ◌∙◌,
}
use my_redis.Prelude.Int.{ℤ, pos, negsuc}
use my_redis.Prelude.Text.{Text, text_eq, codes}
use my_redis.Startup.{Arguments, atoi, accept_port, choose_port}

-- The arguments but `--config` and the one behind it.
unfoldable pub positional : Arguments → Arguments
positional [] = []
positional (arg ∷ []) = if arg == codes "--config" then [] else arg ∷ []
positional (arg ∷ value ∷ rest) =
    let skipped = positional rest in
    let next = positional (value ∷ rest) in if arg == codes "--config" then skipped else arg ∷ next

abbrev pub is_port : ℤ → Bool
is_port (negsuc n) = false
is_port (pos n) = ltb 0 n && leb n 65535

-- The last of them that is a port.
unfoldable pub last_port : (Text → ℤ) → Arguments → Option ℤ
last_port beyond [] = none
last_port beyond (arg ∷ args) = elim (last_port beyond args) [
  | some p ↦ some p
  | none ↦ if is_port (atoi beyond arg) then some (atoi beyond arg) else none
]

abbrev pub or_else : Option ℤ → ℤ → ℤ
or_else none port = port
or_else (some p) port = p

accept_port_lem : (p port : ℤ) → accept_port p port ≡ (if is_port p then p else port)
unfolding accept_port
accept_port_lem (negsuc n) port = refl
accept_port_lem (pos n) port = refl

or_else-last :
    (o : Option ℤ) (p port : ℤ)
    → or_else o (if is_port p then p else port)
      ≡ or_else (elim o [ some q ↦ some q | none ↦ if is_port p then some p else none ]) port
or_else-last (some q) p port = refl
or_else-last none p port = elim (Bool-cases (is_port p)) [ inl e ↦ rw e refl | inr e ↦ rw e refl ]

-- The port is the last argument that is one, and where there is none, that of the configuration.
-- `--config` and the argument behind it are passed over.
pub choose_port-last :
    (beyond : Text → ℤ) (args : Arguments) (port : ℤ)
    → choose_port beyond args port ≡ or_else (last_port beyond (positional args)) port
unfolding choose_port last_port positional
choose_port-last beyond [] port = refl
choose_port-last beyond (arg ∷ []) port = elim (Bool-cases (arg == codes "--config")) [
  | inl e ↦ rw e refl
  | inr e ↦ rw e (accept_port_lem (atoi beyond arg) port ∙ or_else-last none (atoi beyond arg) port)
]
choose_port-last beyond (arg ∷ value ∷ rest) port = elim (Bool-cases (arg == codes "--config")) [
  | inl e ↦ rw e (choose_port-last beyond rest port)
  | inr e ↦
      let last = last_port beyond (positional (value ∷ rest)) in
      rw e (
        choose_port-last beyond (value ∷ rest) (accept_port (atoi beyond arg) port)
        ∙ ap (λ q. or_else last q) (accept_port_lem (atoi beyond arg) port)
        ∙ or_else-last last (atoi beyond arg) port)
]
