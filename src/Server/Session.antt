-- ===== src/Server/Session.antt =====
-- Authentication and transactions over a connection: the command part of `Server::process_client`
-- in src/networking/server.cpp.
use my_redis.Prelude.{
  ℕ, ◌≡◌, ◌≢◌, List, [], ◌∷◌, true, false, ◌&&◌, ◌==◌, nat_eq, refl, Bool-cases, inl, inr,
}
use my_redis.Prelude.{◌↔◌, arith}
use my_redis.Prelude.Text.{Text, text_eq, text_beq_iff, codes}
use my_redis.Parser.{Command}
use my_redis.PubSub.{is_subscribed}
use my_redis.Commands.{Context, Shared}
use my_redis.Commands.Dispatch.{execute_single}
use my_redis.Commands.Transactions.{new_handler, execute}
use my_redis.Server.{ClientState, authenticate, respond}

authenticate_iff :
    (password : Text) (args : List Text)
    → ((authenticate password args).1 ≡ true) ↔ (args ≡ password ∷ [])
unfolding authenticate
authenticate_iff password [] = ground arith
authenticate_iff password (given ∷ []) = ground (arith, text_beq_iff given password)
authenticate_iff password (given ∷ other ∷ rest) = ground arith

respond-auth :
    (password : Text) (fd : ℕ) (c : Context) (cmd : Command) (client : ClientState) (s : Shared)
    → password ≢ []
    → client.authenticated ≡ false
    → ((respond password fd c cmd client s).2 ≡ s)
      × ((respond password fd c cmd client s).1.authenticated
          ≡ (cmd.name == codes "AUTH" && (authenticate password cmd.args).1))
unfolding respond
respond-auth [] fd c cmd client s p h = absurd (p refl)
respond-auth (x ∷ xs) fd c cmd client s p h = elim (Bool-cases (cmd.name == codes "AUTH")) [
  | inl e ↦ rw (respond, h, e) (refl, refl)
  | inr e ↦ rw (respond, h, e) (refl, refl)
]

-- With a password set, a command of a client that is not authenticated changes neither the store,
-- the subscriptions nor the files, and the client is authenticated afterwards exactly if the command
-- is AUTH with the password as its only argument.
pub respond_unauthenticated :
    (password : Text) (fd : ℕ) (c : Context) (cmd : Command) (client : ClientState) (s : Shared)
    → password ≢ []
    → client.authenticated ≡ false
    → ((respond password fd c cmd client s).2 ≡ s)
      × (((respond password fd c cmd client s).1.authenticated ≡ true)
          ↔ ((cmd.name ≡ codes "AUTH") × (cmd.args ≡ password ∷ [])))
respond_unauthenticated password fd c cmd client s p h =
    let known = respond-auth password fd c cmd client s p h in
    (
      known.0,
      rw known.1 (
          ground (arith, authenticate_iff password cmd.args, text_beq_iff cmd.name (codes "AUTH"))),
    )

pub respond_authenticated :
    (password : Text) (fd : ℕ) (c : Context) (cmd : Command) (client : ClientState) (s : Shared)
    → client.authenticated ≡ true
    → respond password fd c cmd client s
      ≡ ((execute fd c cmd (new_handler, s)).0, client, (execute fd c cmd (new_handler, s)).1.1)
unfolding respond
respond_authenticated [] fd c cmd client s a = refl
respond_authenticated (x ∷ xs) fd c cmd client s a = rw (respond, a)

execute_at_once :
    (fd : ℕ) (c : Context) (cmd : Command) (s : Shared)
    → is_subscribed fd s.pubsub ≡ false
    → (cmd.name == codes "MULTI") ≡ false
    → (cmd.name == codes "EXEC") ≡ false
    → (cmd.name == codes "DISCARD") ≡ false
    → (cmd.name == codes "WATCH") ≡ false
    → execute fd c cmd (new_handler, s)
      ≡ ((execute_single fd c cmd s).0, (new_handler, (execute_single fd c cmd s).1))
unfolding execute
execute_at_once fd c cmd s h m e d w = rw (execute, h, m, e, d, w)

-- A command that is none of the transaction commands is executed at once over a connection, also
-- after a MULTI, and its effects are there for every client.
pub respond_at_once :
    (password : Text) (fd : ℕ) (c : Context) (cmd : Command) (client : ClientState) (s : Shared)
    → client.authenticated ≡ true
    → is_subscribed fd s.pubsub ≡ false
    → (cmd.name == codes "MULTI") ≡ false
    → (cmd.name == codes "EXEC") ≡ false
    → (cmd.name == codes "DISCARD") ≡ false
    → (cmd.name == codes "WATCH") ≡ false
    → respond password fd c cmd client s
      ≡ ((execute_single fd c cmd s).0, client, (execute_single fd c cmd s).1)
respond_at_once password fd c cmd client s a h m e d w =
    rw (respond_authenticated password fd c cmd client s a, execute_at_once fd c cmd s h m e d w)
