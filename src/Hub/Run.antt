-- ===== src/Hub/Run.antt =====
-- Every state that the hub reaches while `Chat` connects, disconnects and broadcasts: a client is
-- registered once, with an open channel, and unregistered once (`Chat` of app/server/grpc_server.go
-- does both for a client that it has just made). A call counts as one step, its counter included.
use chat_service.Hub.Leave.{unregister-Tracks}
use chat_service.Chan.{Panic, closed-offer}
use chat_service.Hub.Clients.{All-has_client}
use chat_service.Hub.Delivery.{IsOpen, broadcast_local_lem, offered}
use chat_service.Hub.Invariant.{new_hub-Tracks, register-Tracks, Tracks}
use chat_service.Proto.{ServerMessage}
use chat_service.Hub.{
  update, delete_client, register, new_hub_with_limit, at_capacity, unregister, broadcast_local,
  has_client, Client, Hub, room_at, broadcast,
}
use chat_service.Prelude.{
  inr, ==_iff, inl, ◌==◌, Bool-cases, subst, length, leb, ◌∷◌, ltb, pos, [], Result, ℤ, refl, false,
  true, ap, arith, if◌then◌else◌, ok, ◌∙◌, ◌&&◌, ◌≡◌, Bool, ℕ, List,
}
use chat_service.Hub.View.{members}
use chat_service.Broker.{Codec, Broker}
use chat_service.Text.{same, Bytes}

module _ {Data : Type 0} (b : Broker Data) (codec : Codec Data) where
  Tracks-rest :
      (cs : List ℕ) (h : Hub b) (store : ℕ → Client) (st : b.State)
      → Tracks b cs h
      → ((c : ℕ) → (store c).room_id ≡ (h.clients c).room_id)
      → ((c : ℕ) → (store c).send.closed ≡ (h.clients c).send.closed)
      → Tracks b cs (record h { clients = store; broker = st })
  unfolding members room_at
  Tracks-rest cs h store st t room closed = record {
    once = t.once;
    counted = t.counted;
    listed = λ k c. rw (room c) (t.listed k c);
    listed_once = t.listed_once;
    live = λ c e. closed c ∙ t.live c e;
    occupied = t.occupied;
  }

  absent_room :
      (cs : List ℕ) (c d : ℕ) (p q : Bool)
      → c ≡ d
      → has_client cs c ≡ false
      → (has_client cs d && p) ≡ (has_client cs d && q)
  absent_room cs c d p q e fresh = rw (← e, fresh) refl

  -- A client of a new call takes the place of none of the connected clients.
  pub Tracks-update :
      (cs : List ℕ) (c : ℕ) (cl : Client) (h : Hub b)
      → Tracks b cs h
      → has_client cs c ≡ false
      → Tracks b cs (record h { clients = update h.clients c cl })
  unfolding members room_at
  Tracks-update cs c cl h t fresh = record {
    once = t.once;
    counted = t.counted;
    listed = λ room d. elim (Bool-cases (c == d)) [
      | inl e ↦ rw e (
          t.listed room d
          ∙ absent_room cs c d (same (h.clients d).room_id room) (same cl.room_id room)
              ((==_iff c d).0 e) fresh)
      | inr e ↦ rw e (t.listed room d)
    ];
    listed_once = t.listed_once;
    live = λ d there. elim (Bool-cases (c == d)) [
      | inl e ↦ cc ((==_iff c d).0 e, fresh, there)
      | inr e ↦ rw e (t.live d there)
    ];
    occupied = t.occupied;
  }

  -- The broker after a broadcast, published or not.
  abbrev pub published : Bool → ServerMessage → Hub b → b.State
  published true m h = b.publish m.room_id (codec.marshal m) h.broker
  published false m h = h.broker

  broadcast_from_local :
      (m : ServerMessage) (publish : Bool) (h : Hub b) (store : ℕ → Client)
      → broadcast_local b m h ≡ ok (record h { clients = store })
      → broadcast b codec m publish h
        ≡ ok (record h { clients = store; broker = published publish m h })
  unfolding broadcast
  broadcast_from_local m true h store e = rw (e, broadcast) refl
  broadcast_from_local m false h store e = rw (e, broadcast) refl

  -- Who is offered a message for `room`, while the clients `cs` are connected.
  abbrev pub hears : Bytes → List ℕ → Hub b → ℕ → Bool
  hears room cs h c = has_client cs c && same (h.clients c).room_id room

  abbrev offered_if : Bool → ServerMessage → Client → Client
  offered_if p m cl = if p then offered m cl else cl

  room_id-offered_if :
      (p : Bool) (m : ServerMessage) (cl : Client) → (offered_if p m cl).room_id ≡ cl.room_id
  room_id-offered_if true m cl = refl
  room_id-offered_if false m cl = refl

  closed-offered_if :
      (p : Bool) (m : ServerMessage) (cl : Client)
      → (offered_if p m cl).send.closed ≡ cl.send.closed
  closed-offered_if true m cl = closed-offer m cl.send
  closed-offered_if false m cl = refl

  -- While exactly the clients `cs` are connected, Broadcast does not panic; it offers the message once
  -- to each connected client of the room, changes no other client, publishes the encoded message to
  -- the broker if it is told to, and all stay connected.
  pub broadcast-Tracks :
      (cs : List ℕ) (m : ServerMessage) (publish : Bool) (h : Hub b)
      → Tracks b cs h
      → (h' : Hub b) × (broadcast b codec m publish h ≡ ok h')
        × Tracks b cs h'
        × ((c : ℕ)
            → h'.clients c
              ≡ (if hears m.room_id cs h c then offered m (h.clients c) else h.clients c))
        × (h'.broker ≡ published publish m h)
  broadcast-Tracks cs m publish h t =
      let (store, e, at) = broadcast_local_lem b m h (t.listed_once m.room_id) (
        All-has_client (IsOpen h.clients) (members b m.room_id h)
          (λ c x. t.live c (ground (arith, t.listed m.room_id c, x)))) in
      (
        record h { clients = store; broker = published publish m h },
        broadcast_from_local m publish h store e,
        Tracks-rest cs h store (published publish m h) t
            (λ c.
              ap (λ (x : Client). x.room_id) (at c)
              ∙ room_id-offered_if (has_client (members b m.room_id h) c) m (h.clients c))
            (λ c.
              ap (λ (x : Client). x.send.closed) (at c)
              ∙ closed-offered_if (has_client (members b m.room_id h) c) m (h.clients c)),
        λ c. at c ∙ ap (λ p. offered_if p m (h.clients c)) (t.listed m.room_id c),
        refl,
      )

  -- `Run cs h`: the hub can be in the state `h` while exactly the clients `cs` are connected.
  pub data Run : List ℕ → Hub b → Type 0 where
    start :
        (st : b.State) (store : ℕ → Client) (max : ℤ) → Run [] (new_hub_with_limit b st store max)
    connect :
        {cs : List ℕ} {h : Hub b} (c : ℕ)
        → Run cs h
        → has_client cs c ≡ false
        → IsOpen h.clients c
        → Run (c ∷ cs) (register b c h)
    disconnect :
        {cs : List ℕ} {h h' : Hub b} (c : ℕ)
        → Run cs h
        → has_client cs c ≡ true
        → unregister b c h ≡ ok h'
        → Run (delete_client c cs) h'
    say :
        {cs : List ℕ} {h h' : Hub b} (m : ServerMessage) (publish : Bool)
        → Run cs h
        → broadcast b codec m publish h ≡ ok h'
        → Run cs h'

  ok_injective {ℓ} : {A : Type ℓ} {a c : A} {r : Result Panic A} → r ≡ ok a → r ≡ ok c → a ≡ c
  ok_injective p q = cc (p, q)

  -- In every state that the hub reaches, each room holds the connected clients that name it and no
  -- other, once each; no room is empty; the channels of connected clients are open; and the counter
  -- is the number of connected clients.
  pub Run-Tracks : {cs : List ℕ} {h : Hub b} → Run cs h → Tracks b cs h
  Run-Tracks (start st store max) = new_hub-Tracks b st store max
  Run-Tracks (connect {cs = cs} {h = h} c r fresh open_c) =
      register-Tracks b cs c h (Run-Tracks r) fresh open_c
  Run-Tracks (disconnect {cs = cs} {h = h} c r there e) =
      let (h2, e2, t) = unregister-Tracks b cs c h (Run-Tracks r) there in
      subst (Tracks b (delete_client c cs)) (ok_injective e2 e) t
  Run-Tracks (say {cs = cs} {h = h} m publish r e) =
      let (h2, e2, t, at, br) = broadcast-Tracks cs m publish h (Run-Tracks r) in
      subst (Tracks b cs) (ok_injective e2 e) t

  -- In every state that the hub reaches, no operation panics: a connected client can be unregistered,
  -- and any message can be broadcast.
  pub Run-no_panic :
      {cs : List ℕ} {h : Hub b}
      → Run cs h
      → ((c : ℕ) → has_client cs c ≡ true → (h' : Hub b) × (unregister b c h ≡ ok h'))
        × ((m : ServerMessage) (publish : Bool)
            → (h' : Hub b) × (broadcast b codec m publish h ≡ ok h'))
  Run-no_panic {cs} {h} r = (
    λ c there. let (h2, e2, t) = unregister-Tracks b cs c h (Run-Tracks r) there in (h2, e2),
    λ m publish.
        let (h2, e2, t, at, br) = broadcast-Tracks cs m publish h (Run-Tracks r) in (h2, e2),
  )

  -- In every state that the hub reaches with a limit that is not negative, AtCapacity says whether
  -- the limit is set and at least that many clients are connected.
  pub Run-at_capacity :
      {cs : List ℕ} {h : Hub b} (limit : ℕ)
      → Run cs h
      → h.max_conns ≡ pos limit
      → at_capacity b h ≡ (ltb 0 limit && leb limit (length cs))
  unfolding at_capacity
  Run-at_capacity {cs} {h} limit r e = rw (e, (Run-Tracks r).counted) (ground arith)
