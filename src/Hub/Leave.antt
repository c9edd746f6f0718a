-- ===== src/Hub/Leave.antt =====
-- Unregister of a connected client.
use chat_service.Hub.Delivery.{IsOpen}
use chat_service.Hub.Clients.{
  length-delete_client, has_client-delete_client, NoDuplicates-delete_client, NoDuplicates,
}
use chat_service.Hub.View.{
  unregister_open, left_of, closed_client, unregistered_in, room_at-unregistered,
  members-unregistered, unregistered, members,
}
use chat_service.Hub.Invariant.{Tracks}
use chat_service.Prelude.{
  ==_iff, ◌==◌, ok, pos, if◌then◌else◌, sym, ap, arith, inr, false, ◌&&◌, pred_ℤ, ◌∙◌, inl, refl,
  none, true, Bool-cases, some, ◌≡◌, ℕ, List, Option,
}
use chat_service.Hub.{
  unregister, room_at, members_of, delete_client, no_clients, has_client, Room, Hub, leave,
  run_cancel,
}
use chat_service.Broker.{Broker}
use chat_service.Text.{same_refl, same, Bytes}

module _ {Data : Type 0} (b : Broker Data) where
  clients-run_cancel : (o : Option b.Handle) (h : Hub b) → (run_cancel b o h).clients ≡ h.clients
  unfolding run_cancel
  clients-run_cancel none h = refl
  clients-run_cancel (some cancel) h = refl

  conn_cnt-run_cancel : (o : Option b.Handle) (h : Hub b) → (run_cancel b o h).conn_cnt ≡ h.conn_cnt
  unfolding run_cancel
  conn_cnt-run_cancel none h = refl
  conn_cnt-run_cancel (some cancel) h = refl

  clients-leave :
      (k : Bytes) (c : ℕ) (r : Room b) (h : Hub b) → (leave b k c r h).clients ≡ h.clients
  unfolding leave
  clients-leave k c r h = elim (Bool-cases (no_clients (delete_client c r.clients))) [
    | inl e ↦ rw e (clients-run_cancel r.cancel h)
    | inr e ↦ rw e refl
  ]

  conn_cnt-leave :
      (k : Bytes) (c : ℕ) (r : Room b) (h : Hub b) → (leave b k c r h).conn_cnt ≡ h.conn_cnt
  unfolding leave
  conn_cnt-leave k c r h = elim (Bool-cases (no_clients (delete_client c r.clients))) [
    | inl e ↦ rw e (conn_cnt-run_cancel r.cancel h)
    | inr e ↦ rw e refl
  ]

  conn_cnt-unregistered_in :
      (o : Option (Room b)) (k : Bytes) (c : ℕ) (h : Hub b)
      → (unregistered_in b o k c h).conn_cnt ≡ h.conn_cnt
  conn_cnt-unregistered_in none k c h = refl
  conn_cnt-unregistered_in (some r) k c h =
      conn_cnt-leave k c r (record h { clients = closed_client b c h.clients })

  module _ (cs : List ℕ) (c : ℕ) (h : Hub b) (t : Tracks b cs h)
      (there : has_client cs c ≡ true) where
    member : has_client (members b (h.clients c).room_id h) c ≡ true
    member =
        t.listed (h.clients c).room_id c ∙ ground (arith, there, same_refl (h.clients c).room_id)

    clients-unregistered_in :
        (o : Option (Room b))
        → has_client (members_of b o) c ≡ true
        → (unregistered_in b o (h.clients c).room_id c h).clients ≡ closed_client b c h.clients
    unfolding has_client
    clients-unregistered_in none e = cc
    clients-unregistered_in (some r) e =
        clients-leave (h.clients c).room_id c r (record h { clients = closed_client b c h.clients })

    pub clients-unregistered : (unregistered b c h).clients ≡ closed_client b c h.clients
    unfolding members
    clients-unregistered = clients-unregistered_in (room_at b (h.clients c).room_id h) member

    conn_cnt-unregistered : (unregistered b c h).conn_cnt ≡ pred_ℤ h.conn_cnt
    conn_cnt-unregistered =
        ap pred_ℤ
          (conn_cnt-unregistered_in (room_at b (h.clients c).room_id h) (h.clients c).room_id c h)

    room_id-closed : (d : ℕ) → (closed_client b c h.clients d).room_id ≡ (h.clients d).room_id
    room_id-closed d = elim (Bool-cases (c == d)) [
      | inl e ↦ rw e (ap (λ i. (h.clients i).room_id) ((==_iff c d).0 e))
      | inr e ↦ rw e refl
    ]

    listed-unregistered :
        (room : Bytes) (d : ℕ)
        → has_client (members b room (unregistered b c h)) d ≡ (
            has_client (delete_client c cs) d && same ((unregistered b c h).clients d).room_id room)
    listed-unregistered room d =
        rw (members-unregistered b c h room, clients-unregistered, room_id-closed d)
          (elim (Bool-cases (same (h.clients c).room_id room)) [
            | inl s ↦ rw s (
                ground (
                  arith,
                  s,
                  has_client-delete_client c d (members b room h),
                  has_client-delete_client c d cs,
                  t.listed room d,
                ))
            | inr s ↦ rw s (ground (arith, s, has_client-delete_client c d cs, t.listed room d))
          ])

    listed_once-unregistered : (room : Bytes) → NoDuplicates (members b room (unregistered b c h))
    listed_once-unregistered room =
        rw (members-unregistered b c h room) (elim (Bool-cases (same (h.clients c).room_id room)) [
          | inl s ↦ rw s (NoDuplicates-delete_client c (members b room h) (t.listed_once room))
          | inr s ↦ rw s (t.listed_once room)
        ])

    live-unregistered :
        (d : ℕ) → has_client (delete_client c cs) d ≡ true → IsOpen (unregistered b c h).clients d
    live-unregistered d e =
        rw clients-unregistered (ground (arith, has_client-delete_client c d cs, t.live d))

    occupied-left :
        (o : Option (Room b)) (r : Room b) → left_of b c o ≡ some r → no_clients r.clients ≡ false
    occupied-left none r e = cc
    occupied-left (some q) r e = elim (Bool-cases (no_clients (delete_client c q.clients))) [
      | inl x ↦ ground (arith, x)
      | inr x ↦ ground (arith, x)
    ]

    occupied-unregistered :
        (room : Bytes) (r : Room b)
        → room_at b room (unregistered b c h) ≡ some r
        → no_clients r.clients ≡ false
    occupied-unregistered room r e =
        let k = (h.clients c).room_id in
        let at = room_at-unregistered b c h room in
        elim (Bool-cases (same k room)) [
          | inl s ↦ occupied-left (room_at b k h) r (
              sym (at ∙ ap (λ x. if x then left_of b c (room_at b k h) else room_at b room h) s)
              ∙ e)
          | inr s ↦ t.occupied room r (
              sym (at ∙ ap (λ x. if x then left_of b c (room_at b k h) else room_at b room h) s)
              ∙ e)
        ]

    pub unregistered-Tracks : Tracks b (delete_client c cs) (unregistered b c h)
    unregistered-Tracks = record {
      once = NoDuplicates-delete_client c cs t.once;
      counted =
          conn_cnt-unregistered
          ∙ ap pred_ℤ t.counted
          ∙ ap (λ n. pred_ℤ (pos n)) (sym (length-delete_client c cs t.once there));
      listed = listed-unregistered;
      listed_once = listed_once-unregistered;
      live = live-unregistered;
      occupied = occupied-unregistered;
    }

    -- Unregister of a connected client does not panic, and disconnects it alone.
    pub unregister-Tracks :
        (h' : Hub b) × (unregister b c h ≡ ok h') × Tracks b (delete_client c cs) h'
    unregister-Tracks =
        (unregistered b c h, unregister_open b c h (t.live c there), unregistered-Tracks)
