-- ===== src/Hub/Loopback.antt =====
-- `forwardFromBroker` fed with what the same process has published: a hub subscribes to its rooms at
-- the broker to which it publishes, and both the Redis and the Kafka broker send a message to every
-- subscriber of the room, the publisher's own subscription among them.
use chat_service.Hub.Run.{broadcast-Tracks, hears}
use chat_service.Hub.Delivery.{offered}
use chat_service.Hub.Invariant.{Tracks}
use chat_service.Proto.{ServerMessage}
use chat_service.Prelude.{
  inr, inl, Bool-cases, ap, ◌&&◌, ◌∙◌, refl, ok, true, false, if◌then◌else◌, arith, ◌≡◌, ℕ, ℤ, List,
  Bool,
}
use chat_service.Hub.{
  has_client, forward_decoded, broadcast, Client, Hub, stamp, forward_from_broker,
}
use chat_service.Broker.{Codec, Broker}
use chat_service.Text.{same, Bytes}

module _ {Data : Type 0} (b : Broker Data) (codec : Codec Data) where
  forward_own :
      (now : ℤ) (m : ServerMessage) (h : Hub b)
      → forward_from_broker b codec now (codec.marshal m) h
        ≡ broadcast b codec (stamp b codec now m) false h
  unfolding forward_from_broker
  forward_own now m h = rw (codec.unmarshal-marshal m, forward_decoded) refl

  room_id-stamp : (now : ℤ) (m : ServerMessage) → (stamp b codec now m).room_id ≡ m.room_id
  unfolding stamp
  room_id-stamp now m = ground arith

  echo_client :
      (has : Bool) (room : Bytes) (m m' : ServerMessage) (cl cl1 : Client)
      → cl1 ≡ (if has && same cl.room_id room then offered m cl else cl)
      → (if has && same cl1.room_id room then offered m' cl1 else cl1)
        ≡ (if has && same cl.room_id room then offered m' (offered m cl) else cl)
  echo_client has room m m' cl cl1 p = rw p (elim (Bool-cases (has && same cl.room_id room)) [
    | inl e ↦ rw e (rw e refl)
    | inr e ↦ rw e (rw e refl)
  ])

  -- While the clients `cs` are connected: after a published broadcast, the forwarding of the published
  -- payload offers the message a second time (with the delivery time filled in, if it was 0) to the
  -- very clients that were offered it before, and to nobody else.
  pub echo_offers_twice :
      (cs : List ℕ) (now : ℤ) (m : ServerMessage) (h : Hub b)
      → Tracks b cs h
      → (h1 h2 : Hub b) × (broadcast b codec m true h ≡ ok h1)
        × (forward_from_broker b codec now (codec.marshal m) h1 ≡ ok h2)
        × ((c : ℕ)
            → h2.clients c ≡ (
                if hears b codec m.room_id cs h c
                then offered (stamp b codec now m) (offered m (h.clients c))
                else h.clients c))
  echo_offers_twice cs now m h t =
      let (h1, e1, t1, at1, br1) = broadcast-Tracks b codec cs m true h t in
      let (h2, e2, t2, at2, br2) = broadcast-Tracks b codec cs (stamp b codec now m) false h1 t1 in
      (
        h1,
        h2,
        e1,
        forward_own now m h1 ∙ e2,
        λ c.
            at2 c
            ∙ ap
                (λ r.
                  if hears b codec r cs h1 c
                  then offered (stamp b codec now m) (h1.clients c)
                  else h1.clients c)
                (room_id-stamp now m)
            ∙ echo_client (has_client cs c) m.room_id m (stamp b codec now m) (h.clients c)
                (h1.clients c) (at1 c),
      )
