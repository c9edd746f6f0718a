-- ===== src/Presence.antt =====
-- `LocalPresenceStore` of app/chat/presence.go: who is online, in the memory of one process.
pub mod Replay
pub mod Redis
pub mod Tests
use chat_service.Text.Assoc.{insert, lookup}
use chat_service.Prelude.{if◌then◌else◌, [], none, ◌∷◌, some, pos, ℤ, Option, false, List, Bool}
use chat_service.Text.{lit, Bytes}

-- pb.PresenceInfo
pub record PresenceInfo : Type 0 where
  pub user_id : Bytes
  pub is_online : Bool
  pub last_seen_unix_ms : ℤ

-- The field `data`
abbrev pub LocalPresenceStore : Type 0
LocalPresenceStore = List (Bytes × PresenceInfo)

abbrev pub new_info : Bytes → PresenceInfo
new_info user = record { user_id = user; is_online = false; last_seen_unix_ms = pos 0 }

-- The entry of the user, a new one where there is none.
unfoldable pub info_or_new : Bytes → Option PresenceInfo → PresenceInfo
info_or_new user none = new_info user
info_or_new user (some info) = info

-- SetOnline at a time
unfoldable pub set_online : ℤ → Bytes → Bool → LocalPresenceStore → LocalPresenceStore
unfolding info_or_new
set_online now user online data_of =
    let info = info_or_new user (lookup user data_of) in
    insert user
      (record info {
        is_online = online;
        last_seen_unix_ms = if online then info.last_seen_unix_ms else now;
      })
      data_of

-- Get
unfoldable pub get : LocalPresenceStore → List Bytes → List PresenceInfo
unfolding info_or_new
get data_of [] = []
get data_of (user ∷ users) = info_or_new user (lookup user data_of) ∷ get data_of users
