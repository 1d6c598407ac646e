-- ===== src/PubSub/Publish.antt =====
-- `PubSubManager::publish`: whom it reaches, and whom it drops.
use my_redis.Prelude.{
  ℕ, ◌≡◌, none, some, List, [], ◌∷◌, Bool, false, ◌||◌, ◌&&◌, not, is_empty, ◌==◌, nat_eq,
  nat_beq_iff, if◌then◌else◌, arith, refl, Option-cases, inl, inr,
}
use my_redis.Prelude.Text.{Text, text_eq, text_beq_iff}
use my_redis.Dict.{Dict, find, assign, erase}
use my_redis.PubSub.{
  PubSub, subscribe, unsubscribe, drop_channel, drop_if_empty, dead_sockets, remove_dead,
  push_message, publish, client_disconnected,
}
use my_redis.PubSub.Sets.{member, remove, set_at, set_at-assign, set_at-erase, member-remove}
use my_redis.PubSub.Consistency.{
  listens, listed, Agree, set_at-drop_channel, set_at-drop_if_empty, subscribe-Agree,
  unsubscribe-Agree, client_disconnected-Agree, member-leave_all,
}

member-dead_sockets :
    (send : ℕ → Bool) (fd : ℕ) (fds : List ℕ)
    → member fd (dead_sockets send fds) ≡ (not (send fd) && member fd fds)
unfolding member dead_sockets
member-dead_sockets send fd [] = ground arith
member-dead_sockets send fd (x ∷ fds) =
    ground (arith, member-dead_sockets send fd fds, nat_beq_iff x fd)

member-left :
    (channel : Text) (fd : ℕ) (dead subscribers : List ℕ) (clients : Dict ℕ (List Text))
    → member fd (remove_dead channel dead subscribers clients).0
      ≡ (not (member fd dead) && member fd subscribers)
unfolding remove_dead member
member-left channel fd [] subscribers clients = refl
member-left channel fd (x ∷ dead) subscribers clients = ground (
  arith,
  member-left channel fd dead (remove x subscribers)
      (drop_if_empty x (drop_channel x channel clients)),
  member-remove x fd subscribers,
)

member-clients :
    (channel c : Text) (fd : ℕ) (dead subscribers : List ℕ) (clients : Dict ℕ (List Text))
    → member c (set_at fd (remove_dead channel dead subscribers clients).1)
      ≡ (if channel == c && member fd dead then false else member c (set_at fd clients))
unfolding remove_dead member
member-clients channel c fd [] subscribers clients = ground arith
member-clients channel c fd (x ∷ dead) subscribers clients = ground (
  arith,
  member-clients channel c fd dead (remove x subscribers)
      (drop_if_empty x (drop_channel x channel clients)),
  set_at-drop_if_empty x fd (drop_channel x channel clients),
  set_at-drop_channel x fd channel clients,
  member-remove channel c (set_at fd clients),
)

-- The channel's set once the dead sockets have left.
set_at-left :
    (channel c : Text) (left : List ℕ) (channels : Dict Text (List ℕ))
    → set_at c (if is_empty left then erase channel channels else assign channel left channels)
      ≡ (if channel == c then left else set_at c channels)
set_at-left channel c [] channels = set_at-erase channel c channels
set_at-left channel c (x ∷ left) channels = set_at-assign channel c (x ∷ left) channels

-- PUBLISH takes from the channel exactly the sockets to which the send of the message failed, and
-- changes no other subscription.
pub listens-publish :
    (send : ℕ → Text → Bool) (channel message c : Text) (fd : ℕ) (ps : PubSub)
    → listens fd c (publish send channel message ps).1
      ≡ (listens fd c ps && (not (channel == c) || send fd (push_message channel message)))
unfolding publish
listens-publish send channel message c fd ps = elim (Option-cases (find channel ps.channels)) [
  | inl e ↦ ground (arith, no_subscribers e, text_beq_iff channel c)
  | inr (subs, e) ↦ ground (
    arith,
    subscribers subs e,
    text_beq_iff channel c,
    set_at-left channel c (remove_dead channel (dead_sockets sends subs) subs ps.client_channels).0
        ps.channels,
    member-left channel fd (dead_sockets sends subs) subs ps.client_channels,
    member-dead_sockets sends fd subs,
  )
]
  where
    sends : ℕ → Bool
    sends x = send x (push_message channel message)

    no_subscribers :
        find channel ps.channels ≡ none → member fd (set_at channel ps.channels) ≡ false
    no_subscribers e = unfold set_at member in ground arith

    subscribers :
        (subs : List ℕ) → find channel ps.channels ≡ some subs → set_at channel ps.channels ≡ subs
    subscribers subs e = unfold set_at in ground arith

listed-publish :
    (send : ℕ → Text → Bool) (channel message c : Text) (fd : ℕ) (ps : PubSub)
    → Agree ps
    → listed fd c (publish send channel message ps).1
      ≡ (listed fd c ps && (not (channel == c) || send fd (push_message channel message)))
unfolding publish
listed-publish send channel message c fd ps h = elim (Option-cases (find channel ps.channels)) [
  | inl e ↦ ground (arith, no_subscribers e, text_beq_iff channel c, h fd c)
  | inr (subs, e) ↦ ground (
    arith,
    h fd c,
    subscribers subs e,
    text_beq_iff channel c,
    member-clients channel c fd (dead_sockets sends subs) subs ps.client_channels,
    member-dead_sockets sends fd subs,
  )
]
  where
    sends : ℕ → Bool
    sends x = send x (push_message channel message)

    no_subscribers :
        find channel ps.channels ≡ none → member fd (set_at channel ps.channels) ≡ false
    no_subscribers e = unfold set_at member in ground arith

    subscribers :
        (subs : List ℕ) → find channel ps.channels ≡ some subs → set_at channel ps.channels ≡ subs
    subscribers subs e = unfold set_at in ground arith

publish-Agree :
    (send : ℕ → Text → Bool) (channel message : Text) (ps : PubSub)
    → Agree ps
    → Agree (publish send channel message ps).1
publish-Agree send channel message ps h fd c = rw (
  listens-publish send channel message c fd ps,
  listed-publish send channel message c fd ps h,
  h fd c,
)

-- The calls that change the subscriptions.
pub data Call : Type 0 where
  subscribed unsubscribed : ℕ → List Text → Call
  published : (ℕ → Text → Bool) → Text → Text → Call
  disconnected : ℕ → Call

unfoldable pub perform : Call → PubSub → PubSub
perform (subscribed client channels) ps = (subscribe client channels ps).1
perform (unsubscribed client channels) ps = (unsubscribe client channels ps).1
perform (published send channel message) ps = (publish send channel message ps).1
perform (disconnected client) ps = client_disconnected client ps

unfoldable pub perform_all : List Call → PubSub → PubSub
perform_all [] ps = ps
perform_all (call ∷ calls) ps = perform_all calls (perform call ps)

pub perform-Agree : (call : Call) (ps : PubSub) → Agree ps → Agree (perform call ps)
unfolding perform
perform-Agree (subscribed client channels) ps h = subscribe-Agree client channels ps h
perform-Agree (unsubscribed client channels) ps h = unsubscribe-Agree client channels ps h
perform-Agree (published send channel message) ps h = publish-Agree send channel message ps h
perform-Agree (disconnected client) ps h = client_disconnected-Agree client ps h

-- Where the two indices agree, they agree after any calls, whichever sends fail.
pub perform_all-Agree : (calls : List Call) (ps : PubSub) → Agree ps → Agree (perform_all calls ps)
unfolding perform_all
perform_all-Agree [] ps h = h
perform_all-Agree (call ∷ calls) ps h =
    perform_all-Agree calls (perform call ps) (perform-Agree call ps h)

-- A client that disconnects is in no channel's set, and no other client loses a channel, where the
-- two indices agree.
pub listens-client_disconnected :
    (client fd : ℕ) (c : Text) (ps : PubSub)
    → Agree ps
    → listens fd c (client_disconnected client ps) ≡ (not (client == fd) && listens fd c ps)
unfolding client_disconnected set_at member
listens-client_disconnected client fd c ps h = ground (
  arith,
  member-leave_all client fd c (set_at client ps.client_channels) ps.channels,
  h fd c,
  h client c,
  nat_beq_iff client fd,
)
