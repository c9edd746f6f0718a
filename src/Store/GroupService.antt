-- ===== src/Store/GroupService.antt =====
-- `MessageRepository` of app/repository/mongodb.go as the store of the group calls of
-- app/server/grpc_server.go.
use chat_service.Store.Once.{Updated-none, Updated-once}
use chat_service.Server.Groups.Replies.{promotes, leaves, handle}
use chat_service.Rooms.Stored.{done_only}
use chat_service.Server.Calls.{internal}
use chat_service.Store.Documents.{GroupMemberDoc, ConversationDoc}
use chat_service.Prelude.{
  arith, subst, All, ◌||◌, ◌≤◌, true, ◌&&◌, refl, sym, false, some, ap, ◌≡◌, Bool, ok, err, ℕ, ℤ,
  Result,
}
use chat_service.Server.Groups.{or_internal, leave_group, promote_admin, guarded, GroupStore}
use chat_service.Store.Engine.{count_where, IsEngine, Done, Engine, done}
use chat_service.Store.Groups.{
  after_member, create_group_conversation, is_active_member, leave_conversation, promoted,
  remove_group_member,
}
use chat_service.Store.Groups
use chat_service.Store.Repository.{Repository}
use chat_service.Text.{is_empty, lit, same, Bytes}

-- The answer of a command whose count is dropped.
abbrev pub no_count : {S : Type 0} → Result Bytes ℕ × S → Result Bytes Done × S
no_count (err e, s) = (err e, s)
no_count (ok n, s) = (ok done, s)

module _ (db : Engine) (nanos now : ℤ) (new_id : Bytes) where
  abbrev pub group_store_of : GroupStore (Repository db)
  group_store_of = record {
    create_group_conversation = λ name photo description by members s.
        create_group_conversation db nanos now name photo description by members s;
    get_conversation = λ conv s. Groups.get_conversation db conv s;
    add_group_member = λ conv user operator role s.
        no_count (Groups.add_group_member db new_id now conv user operator role s);
    remove_group_member =
        λ conv user operator s. no_count (Groups.remove_group_member db conv user operator s);
    leave_group = λ conv user s. no_count (Groups.leave_group db conv user s);
    promote_admin = λ conv user operator s. no_count (Groups.promote_admin db conv user operator s);
    transfer_ownership = λ conv current new_owner s.
        no_count (Groups.transfer_ownership db conv current new_owner s);
    delete_group = λ conv owner s. Groups.delete_group db conv owner s;
  }

  or_internal_ok :
      {S : Type 0} (x : Result Bytes Done × S) (s' : S)
      → or_internal x ≡ (ok done, s')
      → x ≡ (ok done, s')
  or_internal_ok (err e, s) s' h = absurd (cc (ap (λ x. x.0) h))
  or_internal_ok (ok d, s) s' h = λ i. (ok (done_only d i), (h i).1)

  guarded_ok :
      {S : Type 0} (b : Bool) (r : GroupStore S) (call : GroupStore S → Result Bytes Done × S)
      (s s' : S)
      → guarded b (some r) call s ≡ (ok done, s')
      → (b ≡ false) × (call r ≡ (ok done, s'))
  guarded_ok true r call s s' h = absurd (cc (ap (λ x. x.0) h))
  guarded_ok false r call s s' h = (refl, or_internal_ok (call r) s' h)

  after_member_ok :
      (f : ConversationDoc → ConversationDoc) (conv : Bytes) (r : Result Bytes ℕ)
      (s s' : Repository db)
      → no_count (after_member db f conv r s) ≡ (ok done, s')
      → (n : ℕ) × (r ≡ ok n) × (s'.group_members ≡ s.group_members)
  unfolding after_member
  after_member_ok f conv (err e) s s' h = absurd (cc (ap (λ x. x.0) h))
  after_member_ok f conv (ok n) s s' h = (n, refl, sym (ap (λ x. x.1.group_members) h))

  not_promoted :
      (r : Result Bytes ℕ) (s : Repository db)
      → ((n : ℕ) → r ≡ ok n → n ≡ 0)
      → (or_internal (no_count (promoted db r, s))).0 ≡ err internal
  unfolding promoted
  not_promoted (err e) s h = refl
  not_promoted (ok n) s h = rw (h n refl) refl

  narrow :
      (conv user : Bytes) (m : GroupMemberDoc)
      → (same m.conversation_id conv && same m.user_id user) ≡ false
      → is_active_member db conv user m ≡ false
  unfolding is_active_member
  narrow conv user m h = ground arith

  inactive_not_active :
      (conv user : Bytes) (m : GroupMemberDoc)
      → is_active_member db conv user (record m { status = lit "INACTIVE" }) ≡ false
  unfolding is_active_member same
  inactive_not_active conv user m = ground arith

  module _ (laws : IsEngine db) where
    -- A user who has left a group cannot be made its administrator: after a LeaveGroup that succeeds,
    -- PromoteAdmin of the user in the conversation is an internal error, whoever asks. The collection
    -- has at most one document for the user in the conversation.
    pub left_not_promoted :
        (conv user operator : Bytes) (s s' : Repository db)
        → count_where
            (λ m. same m.conversation_id conv && same m.user_id user)
            (db.docs s.group_members)
          ≤ 1
        → handle (some group_store_of) (leaves conv user) s ≡ (ok done, s')
        → (handle (some group_store_of) (promotes conv user operator) s').0 ≡ err internal
    unfolding leave_group promote_admin Groups.leave_group Groups.promote_admin remove_group_member
    left_not_promoted conv user operator s s' one h =
        let is_it : GroupMemberDoc → Bool =
          λ m. same m.conversation_id conv && same m.user_id user in
        let inactive : GroupMemberDoc → GroupMemberDoc =
          λ m. record m { status = lit "INACTIVE" } in
        let table = db.update_one is_it inactive s.group_members in
        let (given, did) =
          guarded_ok (is_empty conv || is_empty user) group_store_of
            (λ r. r.leave_group conv user s) s s' h in
        let (n, told, kept) =
          after_member_ok (leave_conversation user) conv table.0
            (record s { group_members = table.1 }) s' did in
        let left : All (λ m. is_active_member db conv user m ≡ false) (db.docs s'.group_members) =
          subst (λ c. All (λ m. is_active_member db conv user m ≡ false) (db.docs c)) (sym kept)
            (Updated-once is_it inactive (is_active_member db conv user) n (db.docs s.group_members)
              (db.docs table.1) (narrow conv user) (inactive_not_active conv user)
              (laws.updated is_it inactive n s.group_members table.1 (λ i. (told i, table.1)))
              one) in
        let again =
          db.update_one (is_active_member db conv user) (λ m. record m { role = lit "ADMIN" })
            s'.group_members in
        rw given (
          not_promoted again.0 (record s' { group_members = again.1 })
            λ k e.
              Updated-none (is_active_member db conv user) (λ m. record m { role = lit "ADMIN" }) k
                (db.docs s'.group_members) (db.docs again.1)
                (laws.updated _ _ k s'.group_members again.1 (λ i. (e i, again.1))) left)
