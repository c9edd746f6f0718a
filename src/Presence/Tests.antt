-- ===== src/Presence/Tests.antt =====
-- Alice opens two streams and closes one.
use chat_service.Presence.Replay.{get-after, told, last_offline, after, Event, online_now}
use chat_service.Presence.{get}
use chat_service.Prelude.{refl, map, ◌≡◌, true, [], false, ◌∷◌, pos, List}
use chat_service.Text.{same, lit, Bytes}

abbrev alice : Bytes
alice = lit "alice"

abbrev two_streams : List Event
two_streams =
    record { at = pos 30; user = alice; online = false }
    ∷ record { at = pos 20; user = alice; online = true }
    ∷ record { at = pos 10; user = alice; online = true }
    ∷ []

get-after_example : get (after two_streams) (alice ∷ []) ≡ map (told two_streams) (alice ∷ [])
get-after_example = get-after two_streams (alice ∷ [])

-- She is told to be offline, while her other stream is open.
offline_too_early :
    told two_streams alice
    ≡ record { user_id = alice; is_online = false; last_seen_unix_ms = pos 30 }
unfolding online_now last_offline same
offline_too_early = refl
