-- ===== src/PubSub/Others.antt =====
-- What a client's own calls of src/pubsub/pubsub.cpp do to the subscriptions of the others.
use my_redis.Prelude.{
  arith, ℕ, ◌≡◌, List, [], ◌∷◌, true, false, ◌||◌, ◌&&◌, is_empty, All, nat_beq_iff, Bool-cases,
  inl, inr, ◌==◌, nat_eq, if◌then◌else◌,
}
use my_redis.Prelude.Text.{Text, text_eq}
use my_redis.PubSub.{
  PubSub, subscribe_one, subscribe, unsubscribe_one, unsubscribe_loop, unsubscribe_from,
  unsubscribe_all, unsubscribe,
}
use my_redis.PubSub.Sets.{member, set_at}
use my_redis.PubSub.Consistency.{Agree, listens, listens-subscribe_one, listens-unsubscribe_one}
use my_redis.PubSub.Publish.{listens-publish, Call, perform, perform_all, perform-Agree}

-- Of a client's own command: it subscribes and unsubscribes nobody else, and disconnects nobody.
abbrev pub IsOwn : ℕ → Call → Type 0
IsOwn client (Call.subscribed fd channels) = fd ≡ client
IsOwn client (Call.unsubscribed fd channels) = fd ≡ client
IsOwn client (Call.published send channel message) = Unit {0}
IsOwn client (Call.disconnected fd) = ⊥

-- SUBSCRIBE adds the client to the channels it names, and changes no other subscription.
pub listens-subscribe :
    (client fd : ℕ) (channels : List Text) (c : Text) (ps : PubSub)
    → listens fd c (subscribe client channels ps).1
      ≡ ((client == fd && member c channels) || listens fd c ps)
unfolding subscribe member
listens-subscribe client fd [] c ps = ground arith
listens-subscribe client fd (channel ∷ rest) c ps = ground (
  arith,
  listens-subscribe client fd rest c (subscribe_one client channel ps),
  listens-subscribe_one client fd channel c ps,
)

listens-unsubscribe_loop :
    (client fd : ℕ) (channels : List Text) (c : Text) (ps : PubSub)
    → listens fd c (unsubscribe_loop client channels ps).1
      ≡ (if client == fd && member c channels then false else listens fd c ps)
unfolding unsubscribe_loop member
listens-unsubscribe_loop client fd [] c ps = ground arith
listens-unsubscribe_loop client fd (channel ∷ rest) c ps = ground (
  arith,
  listens-unsubscribe_loop client fd rest c (unsubscribe_one client channel ps),
  listens-unsubscribe_one client fd channel c ps,
)

listens-unsubscribe_from :
    (client fd : ℕ) (channels : List Text) (c : Text) (ps : PubSub)
    → listens fd c (unsubscribe_from client channels ps).1
      ≡ (if client == fd && member c channels then false else listens fd c ps)
unfolding unsubscribe_from
listens-unsubscribe_from client fd channels c ps = listens-unsubscribe_loop client fd channels c ps

listens-unsubscribe_all :
    (client fd : ℕ) (channels : List Text) (c : Text) (ps : PubSub)
    → listens fd c (unsubscribe_all client channels ps).1
      ≡ (if client == fd && member c channels then false else listens fd c ps)
unfolding unsubscribe_all member
listens-unsubscribe_all client fd [] c ps = ground arith
listens-unsubscribe_all client fd (channel ∷ rest) c ps =
    listens-unsubscribe_from client fd (channel ∷ rest) c ps

-- Where the two indices agree, UNSUBSCRIBE takes the client from the channels it names, or from all
-- where it names none, and changes no other subscription.
pub listens-unsubscribe :
    (client fd : ℕ) (channels : List Text) (c : Text) (ps : PubSub)
    → Agree ps
    → listens fd c (unsubscribe client channels ps).1 ≡ (
        if client == fd && (is_empty channels || member c channels) then false else listens fd c ps)
unfolding unsubscribe
listens-unsubscribe client fd [] c ps h = ground (
  arith,
  listens-unsubscribe_all client fd (set_at client ps.client_channels) c ps,
  h client c,
  nat_beq_iff client fd,
)
listens-unsubscribe client fd (channel ∷ rest) c ps h =
    listens-unsubscribe_from client fd (channel ∷ rest) c ps

-- A call that is the client's own gives no other socket a channel.
pub perform_own :
    (client fd : ℕ) (c : Text) (call : Call) (ps : PubSub)
    → Agree ps
    → IsOwn client call
    → listens fd c (perform call ps) ≡ true
    → ((client == fd) || listens fd c ps) ≡ true
unfolding perform
perform_own client fd c (Call.subscribed x channels) ps h o e =
    ground (arith, listens-subscribe x fd channels c ps)
perform_own client fd c (Call.unsubscribed x channels) ps h o e =
    ground (arith, listens-unsubscribe x fd channels c ps h)
perform_own client fd c (Call.published send channel message) ps h o e =
    ground (arith, listens-publish send channel message c fd ps)
perform_own client fd c (Call.disconnected x) ps h o e = absurd o

pub perform_all_own :
    (client fd : ℕ) (c : Text) (calls : List Call) (ps : PubSub)
    → Agree ps
    → All (IsOwn client) calls
    → listens fd c (perform_all calls ps) ≡ true
    → ((client == fd) || listens fd c ps) ≡ true
unfolding perform_all
perform_all_own client fd c [] ps h o e = ground arith
perform_all_own client fd c (call ∷ calls) ps h (o, os) e = elim (Bool-cases (client == fd)) [
  | inl same ↦ rw same
  | inr other ↦ perform_own client fd c call ps h o (
      rw other at
        (perform_all_own client fd c calls (perform call ps) (perform-Agree call ps h) os e))
]
