-- ===== src/PubSub.antt =====
-- Publish and subscribe: include/pubsub/pubsub.h and src/pubsub/pubsub.cpp. A socket is a number;
-- a set is the list of its elements, each once.
pub mod Sets
pub mod Consistency
pub mod Publish
pub mod Others
mod Tests
use my_redis.Prelude.{
  ℕ, ◌+◌, Option, none, some, List, [], ◌∷◌, ◌++◌, map, Bool, true, false, not, is_empty,
  if◌then◌else◌, length, ◌==◌, nat_eq,
}
use my_redis.Prelude.Int.{ℤ, to_int}
use my_redis.Prelude.Text.{Text, text_eq, codes}
use my_redis.Dict.{Dict, find, assign, erase}
use my_redis.Resp.Serialize.{bulk_string, array}
use my_redis.PubSub.Sets.{insert, remove, set_at}

pub record PubSub : Type 0 where
  pub channels : Dict Text (List ℕ)
  pub client_channels : Dict ℕ (List Text)

abbrev pub empty_pubsub : PubSub
empty_pubsub = record { channels = []; client_channels = [] }

-- `client_channels_[client_fd].size()`
unfoldable pub subscription_count : ℕ → PubSub → ℕ
subscription_count client ps = length (set_at client ps.client_channels)

unfoldable pub subscribe_one : ℕ → Text → PubSub → PubSub
subscribe_one client channel ps = record {
  channels = assign channel (insert client (set_at channel ps.channels)) ps.channels;
  client_channels =
      assign client (insert channel (set_at client ps.client_channels)) ps.client_channels;
}

unfoldable pub subscribe : ℕ → List Text → PubSub → List (Text × ℤ) × PubSub
unfolding subscription_count subscribe_one
subscribe client [] ps = ([], ps)
subscribe client (channel ∷ rest) ps =
    let after = subscribe_one client channel ps in
    let (results, final) = subscribe client rest after in
    ((channel, to_int (subscription_count client after)) ∷ results, final)

-- `ch_it->second.erase(client_fd)`, and the channel's entry goes with its last subscriber.
unfoldable pub leave_channel : ℕ → Text → Dict Text (List ℕ) → Dict Text (List ℕ)
leave_channel client channel channels = elim (find channel channels) [
  | none ↦ channels
  | some subscribers ↦
      let left = remove client subscribers in
      if is_empty left then erase channel channels else assign channel left channels
]

-- `cl_it->second.erase(channel)`, where the client has an entry
unfoldable pub drop_channel : ℕ → Text → Dict ℕ (List Text) → Dict ℕ (List Text)
drop_channel client channel clients = elim (find client clients) [
  | none ↦ clients
  | some subscribed ↦ assign client (remove channel subscribed) clients
]

-- `if (cl_it->second.empty()) client_channels_.erase(cl_it)`, where the client has an entry
unfoldable pub drop_if_empty : ℕ → Dict ℕ (List Text) → Dict ℕ (List Text)
drop_if_empty client clients = elim (find client clients) [
  | none ↦ clients
  | some subscribed ↦ if is_empty subscribed then erase client clients else clients
]

unfoldable pub unsubscribe_one : ℕ → Text → PubSub → PubSub
unfolding leave_channel drop_channel
unsubscribe_one client channel ps = record {
  channels = leave_channel client channel ps.channels;
  client_channels = drop_channel client channel ps.client_channels;
}

-- The loop over `to_unsub`.
unfoldable pub unsubscribe_loop : ℕ → List Text → PubSub → List (Text × ℤ) × PubSub
unfolding subscription_count unsubscribe_one
unsubscribe_loop client [] ps = ([], ps)
unsubscribe_loop client (channel ∷ rest) ps =
    let after = unsubscribe_one client channel ps in
    let (results, final) = unsubscribe_loop client rest after in
    ((channel, to_int (subscription_count client after)) ∷ results, final)

unfoldable pub unsubscribe_from : ℕ → List Text → PubSub → List (Text × ℤ) × PubSub
unfolding unsubscribe_loop drop_if_empty
unsubscribe_from client to_unsub ps =
    let (results, after) = unsubscribe_loop client to_unsub ps in
    (results, record after { client_channels = drop_if_empty client after.client_channels })

unfoldable pub unsubscribe_all : ℕ → List Text → PubSub → List (Text × ℤ) × PubSub
unfolding unsubscribe_from
unsubscribe_all client [] ps = ((codes "*", to_int 0) ∷ [], ps)
unsubscribe_all client (channel ∷ rest) ps = unsubscribe_from client (channel ∷ rest) ps

unfoldable pub unsubscribe : ℕ → List Text → PubSub → List (Text × ℤ) × PubSub
unfolding unsubscribe_all
unsubscribe client [] ps = unsubscribe_all client (set_at client ps.client_channels) ps
unsubscribe client (channel ∷ rest) ps = unsubscribe_from client (channel ∷ rest) ps

-- The sockets to which the send fails, in the order of the set.
unfoldable pub dead_sockets : (ℕ → Bool) → List ℕ → List ℕ
dead_sockets send [] = []
dead_sockets send (fd ∷ fds) =
    let rest = dead_sockets send fds in if send fd then rest else fd ∷ rest

unfoldable pub delivered : (ℕ → Bool) → List ℕ → ℕ
delivered send [] = 0
delivered send (fd ∷ fds) = let rest = delivered send fds in if send fd then rest + 1 else rest

-- The clean-up after the sends: each dead socket leaves the channel, and the reverse index.
unfoldable pub remove_dead :
    Text → List ℕ → List ℕ → Dict ℕ (List Text) → List ℕ × Dict ℕ (List Text)
unfolding drop_channel drop_if_empty
remove_dead channel [] subscribers clients = (subscribers, clients)
remove_dead channel (fd ∷ fds) subscribers clients =
    remove_dead channel fds (remove fd subscribers)
      (drop_if_empty fd (drop_channel fd channel clients))

unfoldable pub push_message : Text → Text → Text
push_message channel message =
    array (bulk_string (codes "message") ∷ bulk_string channel ∷ bulk_string message ∷ [])

-- `send_response fd bytes` is the result of `Resp::send_response`, the write to a subscriber.
unfoldable pub publish : (ℕ → Text → Bool) → Text → Text → PubSub → ℕ × PubSub
unfolding dead_sockets delivered remove_dead
publish send_response channel message ps =
    let send = λ (fd : ℕ). send_response fd (push_message channel message) in
    elim (find channel ps.channels) [
      | none ↦ (0, ps)
      | some subscribers ↦
          let (left, clients) =
            remove_dead channel (dead_sockets send subscribers) subscribers ps.client_channels in
          (
            delivered send subscribers,
            record {
              channels =
                  if is_empty left
                  then erase channel ps.channels
                  else assign channel left ps.channels;
              client_channels = clients;
            },
          )
    ]

unfoldable pub is_subscribed : ℕ → PubSub → Bool
is_subscribed client ps = elim (find client ps.client_channels) [
  | none ↦ false
  | some subscribed ↦ not (is_empty subscribed)
]

unfoldable pub leave_all : ℕ → List Text → Dict Text (List ℕ) → Dict Text (List ℕ)
unfolding leave_channel
leave_all client [] channels = channels
leave_all client (channel ∷ rest) channels =
    leave_all client rest (leave_channel client channel channels)

unfoldable pub client_disconnected : ℕ → PubSub → PubSub
unfolding leave_all
client_disconnected client ps = elim (find client ps.client_channels) [
  | none ↦ ps
  | some subscribed ↦ record {
    channels = leave_all client subscribed ps.channels;
    client_channels = erase client ps.client_channels;
  }
]

unfoldable pub active_channel_count : PubSub → ℕ
active_channel_count ps = length ps.channels

unfoldable pub count_subscriptions : Dict ℕ (List Text) → ℕ → ℕ
count_subscriptions [] total = total
count_subscriptions ((client, subscribed) ∷ rest) total =
    count_subscriptions rest (total + length subscribed)

unfoldable pub total_subscription_count : PubSub → ℕ
unfolding count_subscriptions
total_subscription_count ps = count_subscriptions ps.client_channels 0
