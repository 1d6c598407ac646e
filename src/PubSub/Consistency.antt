-- ===== src/PubSub/Consistency.antt =====
-- The index by channel and the index by client of src/pubsub/pubsub.cpp against each other.
use my_redis.Prelude.{
  refl, ℕ, ◌≡◌, List, [], ◌∷◌, Bool, false, ◌||◌, ◌&&◌, ◌==◌, nat_eq, nat_beq_iff, if◌then◌else◌,
  arith,
}
use my_redis.Prelude.Text.{Text, text_eq, text_beq_iff}
use my_redis.Dict.{Dict, find}
use my_redis.Dict.Laws.{find-assign, find-erase}
use my_redis.PubSub.{
  empty_pubsub, PubSub, subscribe_one, subscribe, leave_channel, drop_channel, drop_if_empty,
  unsubscribe_one, unsubscribe_loop, unsubscribe_from, unsubscribe_all, unsubscribe, leave_all,
  client_disconnected,
}
use my_redis.PubSub.Sets.{
  member, insert, remove, set_at, set_at-assign, member-insert, member-remove,
}

pub set_at-leave_channel :
    (client : ℕ) (channel c : Text) (channels : Dict Text (List ℕ))
    → set_at c (leave_channel client channel channels)
      ≡ (if channel == c then remove client (set_at c channels) else set_at c channels)
unfolding leave_channel set_at remove
set_at-leave_channel client channel c channels = ground (
  arith,
  text_beq_iff channel c,
  find-erase channel c channels,
  find-assign channel c (remove client (set_at channel channels)) channels,
)

pub set_at-drop_channel :
    (client fd : ℕ) (channel : Text) (clients : Dict ℕ (List Text))
    → set_at fd (drop_channel client channel clients)
      ≡ (if client == fd then remove channel (set_at fd clients) else set_at fd clients)
unfolding drop_channel set_at remove
set_at-drop_channel client fd channel clients = ground (
  arith,
  nat_beq_iff client fd,
  find-assign client fd (remove channel (set_at client clients)) clients,
)

pub set_at-drop_if_empty :
    (client fd : ℕ) (clients : Dict ℕ (List Text))
    → set_at fd (drop_if_empty client clients) ≡ set_at fd clients
unfolding drop_if_empty set_at
set_at-drop_if_empty client fd clients =
    ground (arith, nat_beq_iff client fd, find-erase client fd clients)

-- What the two indices say of a socket and a channel.
abbrev pub listens : ℕ → Text → PubSub → Bool
listens fd c ps = member fd (set_at c ps.channels)

abbrev pub listed : ℕ → Text → PubSub → Bool
listed fd c ps = member c (set_at fd ps.client_channels)

abbrev pub Agree : PubSub → Type 0
Agree ps = (fd : ℕ) (c : Text) → listens fd c ps ≡ listed fd c ps

pub listens-subscribe_one :
    (client fd : ℕ) (channel c : Text) (ps : PubSub)
    → listens fd c (subscribe_one client channel ps)
      ≡ ((client == fd && channel == c) || listens fd c ps)
unfolding subscribe_one
listens-subscribe_one client fd channel c ps = ground (
  arith,
  set_at-assign channel c (insert client (set_at channel ps.channels)) ps.channels,
  member-insert client fd (set_at channel ps.channels),
  text_beq_iff channel c,
)

pub empty-Agree : Agree empty_pubsub
unfolding set_at member find
empty-Agree fd c = refl

listed-subscribe_one :
    (client fd : ℕ) (channel c : Text) (ps : PubSub)
    → listed fd c (subscribe_one client channel ps)
      ≡ ((client == fd && channel == c) || listed fd c ps)
unfolding subscribe_one
listed-subscribe_one client fd channel c ps = ground (
  arith,
  set_at-assign client fd (insert channel (set_at client ps.client_channels)) ps.client_channels,
  member-insert channel c (set_at client ps.client_channels),
  nat_beq_iff client fd,
)

pub listens-unsubscribe_one :
    (client fd : ℕ) (channel c : Text) (ps : PubSub)
    → listens fd c (unsubscribe_one client channel ps)
      ≡ (if client == fd && channel == c then false else listens fd c ps)
unfolding unsubscribe_one
listens-unsubscribe_one client fd channel c ps = ground (
  arith,
  set_at-leave_channel client channel c ps.channels,
  member-remove client fd (set_at c ps.channels),
)

listed-unsubscribe_one :
    (client fd : ℕ) (channel c : Text) (ps : PubSub)
    → listed fd c (unsubscribe_one client channel ps)
      ≡ (if client == fd && channel == c then false else listed fd c ps)
unfolding unsubscribe_one
listed-unsubscribe_one client fd channel c ps = ground (
  arith,
  set_at-drop_channel client fd channel ps.client_channels,
  member-remove channel c (set_at fd ps.client_channels),
)

pub subscribe-Agree :
    (client : ℕ) (channels : List Text) (ps : PubSub)
    → Agree ps
    → Agree (subscribe client channels ps).1
unfolding subscribe
subscribe-Agree client [] ps h = h
subscribe-Agree client (channel ∷ rest) ps h =
    subscribe-Agree client rest (subscribe_one client channel ps) (λ fd c. rw (
      listens-subscribe_one client fd channel c ps,
      listed-subscribe_one client fd channel c ps,
      h fd c,
    ))

unsubscribe_loop-Agree :
    (client : ℕ) (channels : List Text) (ps : PubSub)
    → Agree ps
    → Agree (unsubscribe_loop client channels ps).1
unfolding unsubscribe_loop
unsubscribe_loop-Agree client [] ps h = h
unsubscribe_loop-Agree client (channel ∷ rest) ps h =
    unsubscribe_loop-Agree client rest (unsubscribe_one client channel ps) (λ fd c. rw (
      listens-unsubscribe_one client fd channel c ps,
      listed-unsubscribe_one client fd channel c ps,
      h fd c,
    ))

unsubscribe_from-Agree :
    (client : ℕ) (channels : List Text) (ps : PubSub)
    → Agree ps
    → Agree (unsubscribe_from client channels ps).1
unfolding unsubscribe_from
unsubscribe_from-Agree client channels ps h fd c =
    let after = (unsubscribe_loop client channels ps).1 in
    rw (set_at-drop_if_empty client fd after.client_channels)
      (unsubscribe_loop-Agree client channels ps h fd c)

unsubscribe_all-Agree :
    (client : ℕ) (channels : List Text) (ps : PubSub)
    → Agree ps
    → Agree (unsubscribe_all client channels ps).1
unfolding unsubscribe_all
unsubscribe_all-Agree client [] ps h = h
unsubscribe_all-Agree client (channel ∷ rest) ps h =
    unsubscribe_from-Agree client (channel ∷ rest) ps h

pub unsubscribe-Agree :
    (client : ℕ) (channels : List Text) (ps : PubSub)
    → Agree ps
    → Agree (unsubscribe client channels ps).1
unfolding unsubscribe
unsubscribe-Agree client [] ps h = unsubscribe_all-Agree client _ ps h
unsubscribe-Agree client (channel ∷ rest) ps h = unsubscribe_from-Agree client (channel ∷ rest) ps h

pub member-leave_all :
    (client fd : ℕ) (c : Text) (gone : List Text) (channels : Dict Text (List ℕ))
    → member fd (set_at c (leave_all client gone channels))
      ≡ (if client == fd && member c gone then false else member fd (set_at c channels))
unfolding leave_all member
member-leave_all client fd c [] channels = ground arith
member-leave_all client fd c (channel ∷ gone) channels = ground (
  arith,
  member-leave_all client fd c gone (leave_channel client channel channels),
  set_at-leave_channel client channel c channels,
  member-remove client fd (set_at c channels),
)

pub client_disconnected-Agree :
    (client : ℕ) (ps : PubSub) → Agree ps → Agree (client_disconnected client ps)
unfolding client_disconnected set_at member
client_disconnected-Agree client ps h fd c = ground (
  arith,
  member-leave_all client fd c (set_at client ps.client_channels) ps.channels,
  find-erase client fd ps.client_channels,
  nat_beq_iff client fd,
  h fd c,
)
