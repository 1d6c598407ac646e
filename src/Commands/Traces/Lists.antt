-- ===== src/Commands/Traces/Lists.antt =====
-- The handlers of lists and of publish and subscribe in src/commands/command_handler.cpp, as
-- operations of the database and calls of the subscriptions.
use my_redis.Prelude.{ℕ, Option, none, some, List, [], ◌∷◌, refl}
use my_redis.Prelude.Int.{ℤ}
use my_redis.Prelude.Text.{Text, text_eq}
use my_redis.Number.{stoi}
use my_redis.Database.Operations.{Operation, after}
use my_redis.PubSub.Publish.{Call, perform}
use my_redis.Commands.{Context, Shared}
use my_redis.Commands.ListHandlers
use my_redis.Commands.PubSubHandlers
use my_redis.Commands.Traces.{TracesTo, nothing, one, call_one}

module _ (client : ℕ) (c : Context) where
  pub lpush-Traces :
      (args : List Text) (s : Shared) → TracesTo client s (ListHandlers.handle_lpush c args s)
  unfolding ListHandlers.handle_lpush after
  lpush-Traces [] s = nothing client s
  lpush-Traces (key ∷ []) s = nothing client s
  lpush-Traces (key ∷ value ∷ values) s =
      one client (Operation.lpush c.now key value values) s _ refl

  pub rpush-Traces :
      (args : List Text) (s : Shared) → TracesTo client s (ListHandlers.handle_rpush c args s)
  unfolding ListHandlers.handle_rpush after
  rpush-Traces [] s = nothing client s
  rpush-Traces (key ∷ []) s = nothing client s
  rpush-Traces (key ∷ value ∷ values) s =
      one client (Operation.rpush c.now key value values) s _ refl

  pub lpop-Traces :
      (args : List Text) (s : Shared) → TracesTo client s (ListHandlers.handle_lpop c args s)
  unfolding ListHandlers.handle_lpop after
  lpop-Traces [] s = nothing client s
  lpop-Traces (key ∷ []) s = one client (Operation.lpop c.now key) s _ refl
  lpop-Traces (key ∷ x ∷ rest) s = nothing client s

  pub rpop-Traces :
      (args : List Text) (s : Shared) → TracesTo client s (ListHandlers.handle_rpop c args s)
  unfolding ListHandlers.handle_rpop after
  rpop-Traces [] s = nothing client s
  rpop-Traces (key ∷ []) s = one client (Operation.rpop c.now key) s _ refl
  rpop-Traces (key ∷ x ∷ rest) s = nothing client s

  pub llen-Traces :
      (args : List Text) (s : Shared) → TracesTo client s (ListHandlers.handle_llen c args s)
  unfolding ListHandlers.handle_llen after
  llen-Traces [] s = nothing client s
  llen-Traces (key ∷ []) s = one client (Operation.llen c.now key) s _ refl
  llen-Traces (key ∷ x ∷ rest) s = nothing client s

  pub lrange_reply-Traces :
      (key : Text) (start stop : Option ℤ) (s : Shared)
      → TracesTo client s (ListHandlers.lrange_reply c key start stop s)
  unfolding ListHandlers.lrange_reply after
  lrange_reply-Traces key none none s = nothing client s
  lrange_reply-Traces key none (some stop) s = nothing client s
  lrange_reply-Traces key (some start) none s = nothing client s
  lrange_reply-Traces key (some start) (some stop) s =
      one client (Operation.lrange c.now key start stop) s _ refl

  pub lindex_reply-Traces :
      (key : Text) (index : Option ℤ) (s : Shared)
      → TracesTo client s (ListHandlers.lindex_reply c key index s)
  unfolding ListHandlers.lindex_reply after
  lindex_reply-Traces key none s = nothing client s
  lindex_reply-Traces key (some index) s = one client (Operation.lindex c.now key index) s _ refl

  pub lrange-Traces :
      (args : List Text) (s : Shared) → TracesTo client s (ListHandlers.handle_lrange c args s)
  unfolding ListHandlers.handle_lrange
  lrange-Traces [] s = nothing client s
  lrange-Traces (key ∷ []) s = nothing client s
  lrange-Traces (key ∷ start ∷ []) s = nothing client s
  lrange-Traces (key ∷ start ∷ stop ∷ []) s = lrange_reply-Traces key (stoi start) (stoi stop) s
  lrange-Traces (key ∷ start ∷ stop ∷ x ∷ rest) s = nothing client s

  pub lindex-Traces :
      (args : List Text) (s : Shared) → TracesTo client s (ListHandlers.handle_lindex c args s)
  unfolding ListHandlers.handle_lindex
  lindex-Traces [] s = nothing client s
  lindex-Traces (key ∷ []) s = nothing client s
  lindex-Traces (key ∷ index ∷ []) s = lindex_reply-Traces key (stoi index) s
  lindex-Traces (key ∷ index ∷ x ∷ rest) s = nothing client s

  pub subscribe-Traces :
      (args : List Text) (s : Shared)
      → TracesTo client s (PubSubHandlers.handle_subscribe client args s)
  unfolding PubSubHandlers.handle_subscribe perform
  subscribe-Traces [] s = nothing client s
  subscribe-Traces (channel ∷ channels) s =
      call_one client (Call.subscribed client (channel ∷ channels)) s _ refl refl

  pub unsubscribe-Traces :
      (args : List Text) (s : Shared)
      → TracesTo client s (PubSubHandlers.handle_unsubscribe client args s)
  unfolding PubSubHandlers.handle_unsubscribe perform
  unsubscribe-Traces args s = call_one client (Call.unsubscribed client args) s _ refl refl

  pub publish-Traces :
      (args : List Text) (s : Shared) → TracesTo client s (PubSubHandlers.handle_publish c args s)
  unfolding PubSubHandlers.handle_publish perform
  publish-Traces [] s = nothing client s
  publish-Traces (channel ∷ []) s = nothing client s
  publish-Traces (channel ∷ message ∷ []) s =
      call_one client (Call.published c.send_response channel message) s _ tt refl
  publish-Traces (channel ∷ message ∷ x ∷ rest) s = nothing client s

  pub info-Traces :
      (args : List Text) (s : Shared) → TracesTo client s (PubSubHandlers.handle_info c args s)
  unfolding PubSubHandlers.handle_info after
  info-Traces args s = one client (Operation.dbsize c.now) s _ refl
