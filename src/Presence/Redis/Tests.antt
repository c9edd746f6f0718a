-- ===== src/Presence/Redis/Tests.antt =====
-- `RedisPresenceStore` of app/chat/presence.go on keys that are a function.
use chat_service.Presence.Replay.{last_offline, online_now}
use chat_service.Prelude.{pos, arith, map, [], false, ◌≡◌, refl, ◌∷◌, true, none, List}
use chat_service.Presence.Redis.{get, heartbeat, info, set_online}
use chat_service.Presence.Redis.Heartbeat.{
  Act, call, tick, Kept, came, beat, other_call, acted, heartbeats_keep,
}
use chat_service.Presence.Redis.Answers.{
  online_since, IsFresh, Timed, after, answered, redis_get-after,
}
use chat_service.Presence.Redis.Instance.{timed_keys, timed_keys-IsKeys}
use chat_service.Text.{same, Bytes, lit}

abbrev alice : Bytes
alice = lit "alice"

abbrev bob : Bytes
bob = lit "bob"

-- Alice went at 30, bob came at 40.
abbrev calls : List Timed
calls =
    record { at = 40; user = bob; online = true }
    ∷ record { at = 30; user = alice; online = false }
    ∷ record { at = 10; user = alice; online = true }
    ∷ []

nothing_set-IsFresh : IsFresh timed_keys timed_keys-IsKeys (λ i. none)
nothing_set-IsFresh = record { nobody = λ user t. refl; never = λ user t. refl }

redis_get-after_example :
    get timed_keys 50 (after timed_keys timed_keys-IsKeys (λ i. none) calls) (alice ∷ bob ∷ [])
    ≡ map (answered timed_keys timed_keys-IsKeys calls) (alice ∷ bob ∷ [])
unfolding online_since same
redis_get-after_example =
    redis_get-after timed_keys timed_keys-IsKeys calls 50 (alice ∷ bob ∷ []) (λ i. none)
      nothing_set-IsFresh (ground arith) (tt, (omega arith, tt))

-- What is answered then.
alice_and_bob :
    map (answered timed_keys timed_keys-IsKeys calls) (alice ∷ bob ∷ [])
    ≡ record { user_id = alice; is_online = false; last_seen_unix_ms = pos 30 }
      ∷ record { user_id = bob; is_online = true; last_seen_unix_ms = pos 0 }
      ∷ []
unfolding online_now last_offline same
alice_and_bob = refl

abbrev bob_came : Act
bob_came = call (record { at = 40; user = bob; online = true })

-- Without a tick bob is offline 60 seconds later, with one he is not.
expires :
    ((info timed_keys 60041
        (acted timed_keys timed_keys-IsKeys (λ i. none) (bob_came ∷ []))
        bob).is_online
      ≡ false)
    × ((info timed_keys 60041
          (acted timed_keys timed_keys-IsKeys (λ i. none) (tick 30040 bob ∷ bob_came ∷ []))
          bob).is_online
        ≡ true)
unfolding info set_online heartbeat acted same
expires = (refl, refl)

-- A tick for bob, after alice has gone.
abbrev acts : List Act
acts = tick 30040 bob ∷ call (record { at = 50; user = alice; online = false }) ∷ bob_came ∷ []

acts-Kept : Kept bob acts 30040
unfolding same
acts-Kept =
    beat 30040 (other_call (record { at = 50; user = alice; online = false }) (came 40 []) refl)
      (omega arith)

heartbeats_keep_example :
    (info timed_keys 90000 (acted timed_keys timed_keys-IsKeys (λ i. none) acts) bob).is_online
    ≡ true
heartbeats_keep_example =
    heartbeats_keep timed_keys timed_keys-IsKeys bob 90000 (λ i. none) acts-Kept (omega arith)
