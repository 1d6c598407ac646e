-- ===== src/PubSub/Tests.antt =====
-- Runs of the manager on a few clients, and the theorems of this part at them.
use my_redis.Prelude.{ℕ, ◌≡◌, refl, List, [], ◌∷◌, Bool, not, ◌&&◌, ◌||◌, ◌==◌, nat_eq}
use my_redis.Prelude.Text.{Text, text_eq, text_beq, codes}
use my_redis.PubSub.{
  PubSub, empty_pubsub, subscribe, unsubscribe, publish, push_message, client_disconnected,
}
use my_redis.PubSub.Consistency.{empty-Agree, Agree, listens}
use my_redis.Prelude.{is_empty, if◌then◌else◌, false}
use my_redis.PubSub.Others.{listens-unsubscribe}
use my_redis.Dict.{find, assign, erase}
use my_redis.PubSub.Sets.{member, insert, remove, set_at}
use my_redis.PubSub.Publish.{
  Call, perform, perform_all, listens-publish, perform_all-Agree, listens-client_disconnected,
}

abbrev news : Text
news = codes "news"

abbrev first : ℕ
first = 3

abbrev second : ℕ
second = 4

-- The socket 4 is broken.
abbrev only_3 : ℕ → Text → Bool
only_3 fd bytes = fd == 3

abbrev calls : List Call
calls =
    Call.subscribed 3 (news ∷ codes "jobs" ∷ [])
    ∷ Call.subscribed 4 (news ∷ [])
    ∷ Call.unsubscribed 3 (codes "jobs" ∷ [])
    ∷ []

abbrev ps : PubSub
ps = record {
  channels = (news, 3 ∷ 4 ∷ []) ∷ [];
  client_channels = (3, news ∷ []) ∷ (4, news ∷ []) ∷ [];
}

calls_run : perform_all calls empty_pubsub ≡ ps
unfolding perform_all perform subscribe unsubscribe set_at find assign erase text_beq remove insert
calls_run = refl

ps-Agree : Agree ps
ps-Agree = rw calls_run at (perform_all-Agree calls empty_pubsub empty-Agree)

listens-publish_example :
    listens 4 news (publish only_3 news (codes "hello") ps).1
    ≡ (listens 4 news ps && (not (news == news) || only_3 4 (push_message news (codes "hello"))))
listens-publish_example = listens-publish only_3 news (codes "hello") news 4 ps

listens-client_disconnected_example :
    listens second news (client_disconnected first ps)
    ≡ (not (first == second) && listens second news ps)
listens-client_disconnected_example = listens-client_disconnected first second news ps ps-Agree

listens-unsubscribe_example : listens first news (unsubscribe first [] ps).1 ≡ (
    if first == first && (is_empty {A = Text} [] || member news [])
    then false
    else listens first news ps)
listens-unsubscribe_example = listens-unsubscribe first first [] news ps ps-Agree
