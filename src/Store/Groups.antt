-- ===== src/Store/Groups.antt =====
-- Conversations and the members of groups in app/repository/mongodb.go.
pub mod Members
pub mod Created
use chat_service.Server.Calls.{zero_time}
use chat_service.Text.Decimal.{itoa}
use chat_service.RoomId.{contains}
use chat_service.Store.Repository.{Repository, Method}
use chat_service.Store.Reading.{to_int32}
use chat_service.Store.Engine.{Done, Engine}
use chat_service.Proto.{dm, group, RoomType}
use chat_service.Store.Documents.{GroupMemberDoc, ConversationDoc}
use chat_service.Prelude.{
  ◌==◌, map, ◌&&◌, ok, err, Bool, ℕ, length, [], Result, pred_ℤ, succ_ℤ, ◌++◌, ◌∷◌, if◌then◌else◌,
  ℤ, List,
}
use chat_service.Text.{same, is_empty, lit, Bytes}

abbrev pub group_type : Bytes
group_type = lit "GROUP"

abbrev active : Bytes
active = lit "ACTIVE"

-- The users of a set, `uniqueMembers[m] = true`; Go runs through the set in no fixed order, here it is
-- the order in which the users came in.
unfoldable pub add_user : List Bytes → Bytes → List Bytes
add_user us u = if contains us u then us else us ++ u ∷ []

unfoldable pub add_users : List Bytes → List Bytes → List Bytes
unfolding add_user
add_users us [] = us
add_users us (m ∷ ms) = add_users (if is_empty m then us else add_user us m) ms

-- finalMembers
unfoldable pub final_members : Bytes → List Bytes → List Bytes
unfolding add_users
final_members created_by member_ids = add_users (created_by ∷ []) member_ids

-- fmt.Sprintf("GM_%s_%s", convID, userID)
member_doc_id : Bytes → Bytes → Bytes
member_doc_id conv user = lit "GM_" ++ conv ++ b'_' ∷ user

unfoldable pub member_doc : Bytes → Bytes → ℤ → Bytes → GroupMemberDoc
unfolding member_doc_id
member_doc conv created_by now m = record {
  id = member_doc_id conv m;
  conversation_id = conv;
  user_id = m;
  role = if same m created_by then lit "OWNER" else lit "MEMBER";
  joined_at = now;
  status = active;
}

-- "$addToSet" of the participant and "$inc" of the count
unfoldable pub join_conversation : Bytes → ConversationDoc → ConversationDoc
unfolding add_user
join_conversation user c = record c {
  participants = add_user c.participants user;
  member_count = succ_ℤ c.member_count;
}

-- "$pull" of a value: every occurrence goes
unfoldable pub pull : Bytes → List Bytes → List Bytes
pull u [] = []
pull u (v ∷ vs) = let rest = pull u vs in if same v u then rest else v ∷ rest

unfoldable pub leave_conversation : Bytes → ConversationDoc → ConversationDoc
unfolding pull
leave_conversation user c = record c {
  participants = pull user c.participants;
  member_count = pred_ℤ c.member_count;
}

-- The group that CreateGroupConversation inserts.
unfoldable pub group_doc : Bytes → Bytes → Bytes → Bytes → Bytes → ℤ → List Bytes → ConversationDoc
group_doc id name photo description created_by now members = record {
  id = id;
  type = group_type;
  participants = members;
  group_name = name;
  group_photo = photo;
  description = description;
  member_count = to_int32 (length members);
  last_message = [];
  last_message_id = [];
  last_message_at = zero_time;
  created_by = created_by;
  created_at = now;
}

-- pb.ConversationDetail
pub record ConversationDetail : Type 0 where
  pub conversation_id : Bytes
  pub type : RoomType
  pub participants : List Bytes
  pub group_name : Bytes
  pub group_photo : Bytes
  pub description : Bytes
  pub member_count : ℤ
  pub last_message : Bytes
  pub last_message_id : Bytes
  pub last_message_at : ℤ
  pub created_by : Bytes
  pub created_at : ℤ

-- docToConversationDetail
unfoldable pub doc_to_conversation_detail : ConversationDoc → ConversationDetail
doc_to_conversation_detail d = record {
  conversation_id = d.id;
  type = if same d.type group_type then group else dm;
  participants = d.participants;
  group_name = d.group_name;
  group_photo = d.group_photo;
  description = d.description;
  member_count = d.member_count;
  last_message = d.last_message;
  last_message_id = d.last_message_id;
  last_message_at = d.last_message_at;
  created_by = d.created_by;
  created_at = d.created_at;
}

module _ (db : Engine) where
  unfoldable pub after_members :
      ConversationDoc → Result Bytes Done → Result Bytes ConversationDetail
  after_members conv (err e) = err e
  after_members conv (ok d) = ok (doc_to_conversation_detail conv)

  unfoldable pub after_group :
      Bytes → ℤ → ConversationDoc → Result Bytes Done → Method db ConversationDetail
  unfolding after_members
  after_group created_by now conv (err e) s = (err e, s)
  after_group created_by now conv (ok d) s =
      let (r, c) =
        db.insert_many (map (member_doc conv.id created_by now) conv.participants)
          s.group_members in
      (after_members conv r, record s { group_members = c })

  -- CreateGroupConversation, at the time in nanoseconds and in milliseconds
  unfoldable pub create_group_conversation :
      ℤ → ℤ → Bytes → Bytes → Bytes → Bytes → List Bytes → Method db ConversationDetail
  unfolding after_group
  create_group_conversation nanos now name photo description created_by member_ids s =
      let conv =
        group_doc (lit "CONV_" ++ itoa nanos) name photo description created_by now
          (final_members created_by member_ids) in
      let (r, c) = db.insert_one conv s.conversations in
      if is_empty name
      then (err (lit "group_name is required"), s)
      else if is_empty created_by
      then (err (lit "created_by is required"), s)
      else after_group created_by now conv r (record s { conversations = c })

  -- What follows the update of the member: the conversation, whose error is dropped.
  unfoldable pub after_member :
      (ConversationDoc → ConversationDoc) → Bytes → Result Bytes ℕ → Method db ℕ
  after_member f conv (err e) s = (err e, s)
  after_member f conv (ok n) s =
      (ok n, record s { conversations = (db.update_one (λ c. same c.id conv) f s.conversations).1 })

  -- AddGroupMember; the operator is not looked at. An inserted member has the fields that the filter
  -- and the update name, and an id of the database.
  pub add_group_member : Bytes → ℤ → Bytes → Bytes → Bytes → Bytes → Method db ℕ
  unfolding after_member
  add_group_member new_id now conv user operator role s =
      let role = if is_empty role then lit "MEMBER" else role in
      let (r, c) =
        db.upsert_one (λ m. same m.conversation_id conv && same m.user_id user)
          (λ m. record m { role = role; joined_at = now; status = active })
          (record {
            id = new_id;
            conversation_id = conv;
            user_id = user;
            role = role;
            joined_at = now;
            status = active;
          })
          s.group_members in
      after_member (join_conversation user) conv r (record s { group_members = c })

  -- RemoveGroupMember; the operator is not looked at
  unfoldable pub remove_group_member : Bytes → Bytes → Bytes → Method db ℕ
  unfolding after_member
  remove_group_member conv user operator s =
      let (r, c) =
        db.update_one (λ m. same m.conversation_id conv && same m.user_id user)
          (λ m. record m { status = lit "INACTIVE" }) s.group_members in
      after_member (leave_conversation user) conv r (record s { group_members = c })

  -- LeaveGroup
  unfoldable pub leave_group : Bytes → Bytes → Method db ℕ
  unfolding remove_group_member
  leave_group conv user s = remove_group_member conv user user s

  unfoldable pub is_active_member : Bytes → Bytes → GroupMemberDoc → Bool
  is_active_member conv user m =
      same m.conversation_id conv && same m.user_id user && same m.status active

  unfoldable pub promoted : Result Bytes ℕ → Result Bytes ℕ
  promoted (err e) = err e
  promoted (ok n) = if n == 0 then err (lit "active member not found in group") else ok n

  -- PromoteAdmin; the operator is not looked at
  unfoldable pub promote_admin : Bytes → Bytes → Bytes → Method db ℕ
  unfolding is_active_member promoted
  promote_admin conv user operator s =
      let (r, c) =
        db.update_one (is_active_member conv user) (λ m. record m { role = lit "ADMIN" })
          s.group_members in
      (promoted r, record s { group_members = c })

  after_owner : Bytes → Bytes → Result Bytes ℕ → Method db ℕ
  after_owner conv current (err e) s = (err e, s)
  after_owner conv current (ok n) s =
      let c =
        (db.update_one (λ m. same m.conversation_id conv && same m.user_id current)
          (λ m. record m { role = lit "ADMIN" }) s.group_members).1 in
      if is_empty current then (ok n, s) else (ok n, record s { group_members = c })

  -- TransferOwnership
  pub transfer_ownership : Bytes → Bytes → Bytes → Method db ℕ
  unfolding is_active_member after_owner
  transfer_ownership conv current new_owner s =
      let (r, c) =
        db.update_one (is_active_member conv new_owner) (λ m. record m { role = lit "OWNER" })
          s.group_members in
      after_owner conv current r (record s { group_members = c })

  after_deletion : Bytes → Result Bytes Done → Method db Done
  after_deletion conv (err e) s = (err e, s)
  after_deletion conv (ok d) s = (
    ok d,
    record s {
      group_members = (db.delete_many (λ m. same m.conversation_id conv) s.group_members).1;
    },
  )

  -- DeleteGroup; the owner is not looked at
  pub delete_group : Bytes → Bytes → Method db Done
  unfolding after_deletion
  delete_group conv owner s =
      let (r, c) = db.delete_one (λ d. same d.id conv) s.conversations in
      after_deletion conv r (record s { conversations = c })

  members_found : Result Bytes (List GroupMemberDoc) → List GroupMemberDoc
  members_found (err e) = []
  members_found (ok ms) = ms

  conversation_found :
      Bytes
      → Result Bytes ConversationDoc
      → Repository db
      → Result Bytes (ConversationDetail × List GroupMemberDoc)
  unfolding members_found
  conversation_found conv (err e) s = err e
  conversation_found conv (ok d) s = ok (
    doc_to_conversation_detail d,
    if same d.type group_type
        then members_found
            (db.find (λ m. same m.conversation_id conv && same m.status active) s.group_members)
        else [],
  )

  -- GetConversation
  pub get_conversation :
      Bytes → Repository db → Result Bytes (ConversationDetail × List GroupMemberDoc)
  unfolding conversation_found
  get_conversation conv s =
      conversation_found conv (db.find_one (λ d. same d.id conv) s.conversations) s
