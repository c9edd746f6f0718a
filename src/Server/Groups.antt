-- ===== src/Server/Groups.antt =====
-- The group calls of app/server/grpc_server.go and `GetConversation`, over a store whose state is `S`.
pub mod Replies
use chat_service.Prelude.{
  false, none, true, ◌||◌, some, ok, if◌then◌else◌, err, Option, Bool, Result, List,
}
use chat_service.Server.Calls.{Reply, internal, invalid_argument, not_found, unimplemented}
use chat_service.Store.Documents.{GroupMemberDoc}
use chat_service.Store.Engine.{Done, done}
use chat_service.Store.Groups.{ConversationDetail}
use chat_service.Text.{is_empty, lit, Bytes}

-- The methods of repository.MessageStore on groups; the state is that of the store.
pub record GroupStore (S : Type 0) : Type 0 where
  pub create_group_conversation :
      Bytes → Bytes → Bytes → Bytes → List Bytes → S → Result Bytes ConversationDetail × S
  pub get_conversation : Bytes → S → Result Bytes (ConversationDetail × List GroupMemberDoc)
  pub add_group_member : Bytes → Bytes → Bytes → Bytes → S → Result Bytes Done × S
  pub remove_group_member : Bytes → Bytes → Bytes → S → Result Bytes Done × S
  pub leave_group : Bytes → Bytes → S → Result Bytes Done × S
  pub promote_admin : Bytes → Bytes → Bytes → S → Result Bytes Done × S
  pub transfer_ownership : Bytes → Bytes → Bytes → S → Result Bytes Done × S
  pub delete_group : Bytes → Bytes → S → Result Bytes Done × S

abbrev pub or_not_found :
    Result Bytes (ConversationDetail × List GroupMemberDoc)
    → Reply (ConversationDetail × List GroupMemberDoc)
or_not_found (err e) = err not_found
or_not_found (ok c) = ok c

module _ {S : Type 0} where
  -- if err != nil { return nil, status.Errorf(code, ...) }
  abbrev pub or_internal : {A : Type 0} → Result Bytes A × S → Reply A × S
  or_internal (err e, s) = (err internal, s)
  or_internal (ok a, s) = (ok a, s)

  -- The two guards of a handler and its call of `s.msgRepo`, which may be nil.
  abbrev pub guarded :
      {A : Type 0}
      → Bool
      → Option (GroupStore S)
      → (GroupStore S → Result Bytes A × S)
      → S
      → Reply A × S
  guarded true repo call s = (err invalid_argument, s)
  guarded false none call s = (err unimplemented, s)
  guarded false (some r) call s = or_internal (call r)

  -- CreateGroup
  unfoldable pub create_group :
      Option (GroupStore S)
      → Bytes
      → Bytes
      → Bytes
      → Bytes
      → List Bytes
      → S
      → Reply ConversationDetail × S
  create_group repo name photo description created_by members s =
      guarded (is_empty name || is_empty created_by) repo
        (λ r. r.create_group_conversation name photo description created_by members s) s

  abbrev pub conversation_from :
      Option (GroupStore S) → Bytes → S → Reply (ConversationDetail × List GroupMemberDoc)
  conversation_from none conv s = err unimplemented
  conversation_from (some r) conv s = or_not_found (r.get_conversation conv s)

  -- GetConversation
  unfoldable pub get_conversation :
      Option (GroupStore S) → Bytes → S → Reply (ConversationDetail × List GroupMemberDoc)
  get_conversation repo conv s =
      if is_empty conv then err invalid_argument else conversation_from repo conv s

  -- AddGroupMember; `ok done` is Success: true
  unfoldable pub add_group_member :
      Option (GroupStore S) → Bytes → Bytes → Bytes → Bytes → S → Reply Done × S
  add_group_member repo conv user operator role s =
      guarded (is_empty conv || is_empty user) repo
        (λ r. r.add_group_member conv user operator role s) s

  -- RemoveGroupMember
  unfoldable pub remove_group_member :
      Option (GroupStore S) → Bytes → Bytes → Bytes → S → Reply Done × S
  remove_group_member repo conv user operator s =
      guarded (is_empty conv || is_empty user) repo
        (λ r. r.remove_group_member conv user operator s) s

  -- LeaveGroup
  unfoldable pub leave_group : Option (GroupStore S) → Bytes → Bytes → S → Reply Done × S
  leave_group repo conv user s =
      guarded (is_empty conv || is_empty user) repo (λ r. r.leave_group conv user s) s

  -- PromoteAdmin
  unfoldable pub promote_admin : Option (GroupStore S) → Bytes → Bytes → Bytes → S → Reply Done × S
  promote_admin repo conv user operator s =
      guarded (is_empty conv || is_empty user) repo (λ r. r.promote_admin conv user operator s) s

  -- TransferOwnership; the current owner may be empty
  unfoldable pub transfer_ownership :
      Option (GroupStore S) → Bytes → Bytes → Bytes → S → Reply Done × S
  transfer_ownership repo conv current new_owner s =
      guarded (is_empty conv || is_empty new_owner) repo
        (λ r. r.transfer_ownership conv current new_owner s) s

  -- DeleteGroup
  unfoldable pub delete_group : Option (GroupStore S) → Bytes → Bytes → S → Reply Done × S
  delete_group repo conv owner s =
      guarded (is_empty conv || is_empty owner) repo (λ r. r.delete_group conv owner s) s
