-- ===== src/Server/Chat/Left.antt =====
-- The end of `Chat` of app/server/grpc_server.go on a hub with the clients that are connected.
use chat_service.Prelude.{ap, ◌∙◌, ◌≡◌, ◌∷◌, [], true, false, ok, map, ℕ, ℤ, List}
use chat_service.Text.{Bytes}
use chat_service.Broker.{Broker, Codec}
use chat_service.Hub.{delete_client, has_client}
use chat_service.Hub.Invariant.{Tracks}
use chat_service.Hub.Leave.{clients-unregistered, unregistered-Tracks}
use chat_service.Hub.View.{closed_client, unregister_open, unregistered}
use chat_service.Presence.{get, set_online}
use chat_service.Server.Chat.{Pod, close_chat, presence_event}
use chat_service.Server.Chat.Entered.{after_event, announce_lem, online-set_online}

module _ {Data : Type 0} (b : Broker Data) (codec : Codec Data) where
  -- While exactly the clients `cs` are connected, the end of the call of one of them does not panic: it
  -- alone is disconnected and its channel closed; its user is offline, even where another call of the
  -- user is open; and the event that says so is offered once to each client that is left in the room.
  pub close_chat-Tracks :
      (cs : List ℕ) (c : ℕ) (user : Bytes) (seen now : ℤ) (p : Pod b codec)
      → Tracks b cs p.hub
      → has_client cs c ≡ true
      → let room = (p.hub.clients c).room_id in
        let event = presence_event user room false now in
        let rest = delete_client c cs in
        (q : Pod b codec) × (close_chat b codec c user room seen now p ≡ ok q)
        × Tracks b rest q.hub
        × ((d : ℕ)
            → q.hub.clients d ≡ after_event b codec rest event (closed_client b c p.hub.clients) d)
        × (map (λ info. info.is_online) (get q.presence (user ∷ [])) ≡ false ∷ [])
  unfolding close_chat
  close_chat-Tracks cs c user seen now p t there =
      let event = presence_event user (p.hub.clients c).room_id false now in
      let q = record p {
        hub = unregistered b c p.hub;
        presence = set_online seen user false p.presence;
      } in
      let rest = delete_client c cs in
      let (h2, e, t2, at) =
        announce_lem b codec rest event q (unregistered-Tracks b cs c p.hub t there) in
      (
        record q { hub = h2 },
        rw (unregister_open b c p.hub (t.live c there), close_chat) e,
        t2,
        λ d.
            at d
            ∙ ap (λ clients. after_event b codec rest event clients d)
                (clients-unregistered b cs c p.hub t there),
        online-set_online seen user false p.presence,
      )
