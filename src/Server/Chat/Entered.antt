-- ===== src/Server/Chat/Entered.antt =====
-- The beginning of `Chat` of app/server/grpc_server.go on a hub with the clients that are connected.
use chat_service.Prelude.{
  [], map, ◌∷◌, ap, refl, ◌∙◌, ◌≡◌, true, false, some, ok, pos, ==_iff, ◌&&◌, if◌then◌else◌, ℕ, ℤ,
  List, Bool,
}
use chat_service.Text.{is_empty, Bytes, same, same_refl}
use chat_service.Text.Assoc.{lookup-insert}
use chat_service.Broker.{Broker, Codec}
use chat_service.Hub.{Hub, Client, at_capacity, has_client, new_client, register, update}
use chat_service.Hub.Delivery.{IsOpen, offered}
use chat_service.Hub.Invariant.{Tracks, register-Tracks, clients-register}
use chat_service.Hub.Run.{Tracks-update, broadcast-Tracks, hears}
use chat_service.Presence.{info_or_new, LocalPresenceStore, set_online, get}
use chat_service.Proto.{ClientMessage, ServerMessage}
use chat_service.RoomId.{normalize_room_id}
use chat_service.Server.Chat.{Pod, announce, enter, open_chat, presence_event, with_first}

pub online-set_online :
    (now : ℤ) (user : Bytes) (online : Bool) (store : LocalPresenceStore)
    → map (λ info. info.is_online) (get (set_online now user online store) (user ∷ []))
      ≡ online ∷ []
unfolding get set_online info_or_new
online-set_online now user online store = rw (lookup-insert, same_refl user) refl

module _ {Data : Type 0} (b : Broker Data) (codec : Codec Data) where
  pub announce_lem :
      (cs : List ℕ) (m : ServerMessage) (p : Pod b codec)
      → Tracks b cs p.hub
      → (h : Hub b) × (announce b codec m p ≡ ok (record p { hub = h }))
        × Tracks b cs h
        × ((d : ℕ)
            → h.clients d ≡ (
                if hears b codec m.room_id cs p.hub d
                then offered m (p.hub.clients d)
                else p.hub.clients d))
  unfolding announce
  announce_lem cs m p t =
      let (h, e, t2, at, br) = broadcast-Tracks b codec cs m true p.hub t in
      (h, rw (e, announce) refl, t2, at)

  -- The client of a new call, in its place.
  abbrev pub with_client : ℕ → Bytes → Bytes → Hub b → Hub b
  with_client c user room h = record h { clients = update h.clients c (new_client user room) }

  with_client-IsOpen :
      (c : ℕ) (user room : Bytes) (h : Hub b) → IsOpen (with_client c user room h).clients c
  with_client-IsOpen c user room h = rw ((==_iff c c).1 refl) refl

  -- What the clients of a room are after an event for it, while the clients `cs` are connected.
  abbrev pub after_event : List ℕ → ServerMessage → (ℕ → Client) → ℕ → Client
  after_event cs m clients d =
      if has_client cs d && same (clients d).room_id m.room_id
      then offered m (clients d)
      else clients d

  -- While exactly the clients `cs` are connected and the process is below its limit, a first frame with
  -- a user and a room opens the call without a panic: its client is connected too, in the canonical
  -- room; the user is online; and the event that says so is offered once to each client of the room,
  -- the new one included, and to no other.
  pub open_chat-Tracks :
      (cs : List ℕ) (c : ℕ) (now : ℤ) (first : ClientMessage) (p : Pod b codec)
      → Tracks b cs p.hub
      → has_client cs c ≡ false
      → at_capacity b p.hub ≡ false
      → is_empty first.user_id ≡ false
      → is_empty first.room_id ≡ false
      → let room = normalize_room_id first.room_id in
        let event = presence_event first.user_id room true (pos 0) in
        (q : Pod b codec) × (open_chat b codec c now (some first) p ≡ ok (ok q))
        × Tracks b (c ∷ cs) q.hub
        × ((d : ℕ)
            → q.hub.clients d
              ≡ after_event (c ∷ cs) event (with_client c first.user_id room p.hub).clients d)
        × (map (λ info. info.is_online) (get q.presence (first.user_id ∷ [])) ≡ true ∷ [])
  unfolding open_chat with_first enter
  open_chat-Tracks cs c now first p t fresh below user room_there =
      let room = normalize_room_id first.room_id in
      let h = with_client c first.user_id room p.hub in
      let event = presence_event first.user_id room true (pos 0) in
      let q = record p {
        hub = register b c h;
        presence = set_online now first.user_id true p.presence;
      } in
      let t0 = Tracks-update b codec cs c (new_client first.user_id room) p.hub t fresh in
      let t1 = register-Tracks b cs c h t0 fresh (with_client-IsOpen c first.user_id room p.hub) in
      let (h2, e, t2, at) = announce_lem (c ∷ cs) event q t1 in
      (
        record q { hub = h2 },
        rw (below, user, room_there) (ap ok e),
        t2,
        λ d. at d ∙ ap (λ clients. after_event (c ∷ cs) event clients d) (clients-register b c h),
        online-set_online now first.user_id true p.presence,
      )
