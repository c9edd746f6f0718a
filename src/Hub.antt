-- ===== src/Hub.antt =====
-- app/chat/hub.go: the rooms of one process, in 64 shards by a hash of the room id, and the clients
-- in them. A `*Client` is a number, the clients themselves stand in a store. Each operation holds the
-- lock of one shard from the lookup of the room to its last write, and is one step here. Register and
-- Unregister change the atomic counter of connections after they have given the lock back; that change
-- belongs to their step, so that the moment between the two, when the counter lags behind the rooms by
-- one for each call that is there, is no state of the model.
pub mod Shard
pub mod Clients
pub mod View
pub mod Delivery
pub mod Invariant
pub mod Leave
pub mod Run
pub mod Loopback
pub mod Tests
use chat_service.Text.Assoc.{lookup, remove, insert}
use chat_service.Proto.{ServerMessage}
use chat_service.Broker.{Codec, Broker}
use chat_service.Prelude.{
  none, some, not, ◌&&◌, pred_ℤ, err, ok, pos, ◌||◌, eqb_ℤ, ltb_ℤ, some, [], true, ◌∷◌, false, ◌==◌,
  Result, succ_ℤ, ℤ, Option, Bool, if◌then◌else◌, List, ℕ,
}
use chat_service.Chan.{try_send, close_chan, Panic, make_chan, Chan}
use chat_service.Text.{Bytes}
use Shard.{shard_index}

pub record Client : Type 0 where
  pub user_id : Bytes
  pub room_id : Bytes
  pub send : Chan ServerMessage

-- NewClient
abbrev pub new_client : Bytes → Bytes → Client
new_client user_id room_id = record { user_id = user_id; room_id = room_id; send = make_chan 256 }

-- f[i] = a, for an array or a store
abbrev pub update {ℓ} : {A : Type ℓ} → (ℕ → A) → ℕ → A → ℕ → A
update f i a j = if i == j then a else f j

-- A set of clients, map[*Client]struct{}.
unfoldable pub has_client : List ℕ → ℕ → Bool
has_client [] c = false
has_client (d ∷ ds) c = (d == c) || has_client ds c

unfoldable pub add_client : ℕ → List ℕ → List ℕ
unfolding has_client
add_client c ds = if has_client ds c then ds else c ∷ ds

unfoldable pub delete_client : ℕ → List ℕ → List ℕ
delete_client c [] = []
delete_client c (d ∷ ds) = let rest = delete_client c ds in if d == c then rest else d ∷ rest

-- len(r.clients) == 0
abbrev pub no_clients : List ℕ → Bool
no_clients [] = true
no_clients (d ∷ ds) = false

module _ {Data : Type 0} (b : Broker Data) where
  pub record Room : Type 0 where
    pub clients : List ℕ
    pub cancel : Option b.Handle

  pub record Hub : Type 0 where
    pub shards : ℕ → List (Bytes × Room)
    pub clients : ℕ → Client
    pub broker : b.State
    pub conn_cnt : ℤ
    pub max_conns : ℤ

  -- NewHubWithLimit
  unfoldable pub new_hub_with_limit : b.State → (ℕ → Client) → ℤ → Hub
  new_hub_with_limit st clients max_conns = record {
    shards = λ i. [];
    clients = clients;
    broker = st;
    conn_cnt = pos 0;
    max_conns = max_conns;
  }

  -- r, ok := h.shard(roomID).rooms[roomID]
  unfoldable pub room_at : Bytes → Hub → Option Room
  room_at room h = lookup room (h.shards (shard_index room))

  unfoldable pub put_room : Bytes → Room → Hub → Hub
  put_room room r h = record h {
    shards = update h.shards (shard_index room) (insert room r (h.shards (shard_index room)));
  }

  unfoldable pub delete_room : Bytes → Hub → Hub
  delete_room room h = record h {
    shards = update h.shards (shard_index room) (remove room (h.shards (shard_index room)));
  }

  -- The room is created, with a subscription of its own, for its first client.
  unfoldable pub register_in : Option Room → Bytes → ℕ → Hub → Hub
  register_in (some r) room c h = put_room room (record r { clients = add_client c r.clients }) h
  register_in none room c h =
      let (cancel, st) = b.subscribe room h.broker in
      put_room room (record { clients = add_client c []; cancel = cancel })
        (record h { broker = st })

  -- Register
  unfoldable pub register : ℕ → Hub → Hub
  unfolding register_in put_room room_at
  register c h =
      let room = (h.clients c).room_id in
      let h' = register_in (room_at room h) room c h in record h' { conn_cnt = succ_ℤ h'.conn_cnt }

  unfoldable pub run_cancel : Option b.Handle → Hub → Hub
  run_cancel none h = h
  run_cancel (some cancel) h = record h { broker = b.cancel cancel h.broker }

  -- The last client of a room takes the room and its subscription away.
  unfoldable pub leave : Bytes → ℕ → Room → Hub → Hub
  unfolding run_cancel delete_room put_room
  leave room c r h =
      let rest = delete_client c r.clients in
      if no_clients rest
      then delete_room room (run_cancel r.cancel h)
      else put_room room (record r { clients = rest }) h

  -- `delete(r.clients, c)` and `close(c.Send)`, in a room that is there.
  unfoldable pub unregister_in : Option Room → Bytes → ℕ → Hub → Result Panic Hub
  unfolding leave
  unregister_in none room c h = ok h
  unregister_in (some r) room c h = elim (close_chan (h.clients c).send) [
    | err p ↦ err p
    | ok ch ↦ ok (
        leave room c r
          (record h { clients = update h.clients c (record (h.clients c) { send = ch }) }))
  ]

  -- Unregister
  unfoldable pub unregister : ℕ → Hub → Result Panic Hub
  unfolding unregister_in room_at
  unregister c h =
      let room = (h.clients c).room_id in
      elim (unregister_in (room_at room h) room c h) [
        | err p ↦ err p
        | ok h' ↦ ok (record h' { conn_cnt = pred_ℤ h'.conn_cnt })
      ]

  -- AtCapacity
  unfoldable pub at_capacity : Hub → Bool
  at_capacity h = ltb_ℤ (pos 0) h.max_conns && not (ltb_ℤ h.conn_cnt h.max_conns)

  -- for c := range r.clients { select { case c.Send <- msg: default: } }
  unfoldable pub deliver : ServerMessage → List ℕ → (ℕ → Client) → Result Panic (ℕ → Client)
  deliver m [] store = ok store
  deliver m (c ∷ cs) store = elim (try_send m (store c).send) [
    | err p ↦ err p
    | ok ch ↦ deliver m cs (update store c (record (store c) { send = ch }))
  ]

  abbrev pub members_of : Option Room → List ℕ
  members_of none = []
  members_of (some r) = r.clients

  -- The first half of Broadcast, under the lock of the shard.
  unfoldable pub broadcast_local : ServerMessage → Hub → Result Panic Hub
  unfolding deliver room_at
  broadcast_local m h = elim (deliver m (members_of (room_at m.room_id h)) h.clients) [
    | err p ↦ err p
    | ok store ↦ ok (record h { clients = store })
  ]

  module _ (codec : Codec Data) where
    -- Broadcast
    unfoldable pub broadcast : ServerMessage → Bool → Hub → Result Panic Hub
    unfolding broadcast_local
    broadcast m publish h = elim (broadcast_local m h) [
      | err p ↦ err p
      | ok h' ↦ ok (
          if publish
          then record h' { broker = b.publish m.room_id (codec.marshal m) h'.broker }
          else h')
    ]

    pub stamp : ℤ → ServerMessage → ServerMessage
    stamp now m =
        if eqb_ℤ m.delivered_at_unix_ms (pos 0) then record m { delivered_at_unix_ms = now } else m

    forward_decoded : ℤ → Option ServerMessage → Hub → Result Panic Hub
    unfolding stamp broadcast
    forward_decoded now none h = ok h
    forward_decoded now (some m) h = broadcast (stamp now m) false h

    -- One round of the loop of forwardFromBroker, at the time `now`.
    pub forward_from_broker : ℤ → Data → Hub → Result Panic Hub
    unfolding forward_decoded
    forward_from_broker now raw h = forward_decoded now (codec.unmarshal raw) h
