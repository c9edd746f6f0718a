-- ===== src/Store/GroupTests.antt =====
-- The group calls of app/server/grpc_server.go on the repository of app/repository/mongodb.go, over lists.
use chat_service.Store.Engine.{count_where}
use chat_service.Store.Groups.{leave_group}
use chat_service.Prelude.{refl, arith, err, ◌≡◌, some, ◌∷◌, pos, []}
use chat_service.Server.Calls.{internal}
use chat_service.Server.Groups.{leave_group as asked_to_leave}
use chat_service.Server.Groups.Replies.{handle, promotes}
use chat_service.Store.GroupService.{group_store_of, left_not_promoted}
use chat_service.Store.Documents.{GroupMemberDoc}
use chat_service.Store.Lists.{update_first, lists, lists-IsEngine}
use chat_service.Store.Repository.{Repository}
use chat_service.Text.{same, lit}

abbrev no_docs : Repository lists
no_docs = record {
  conversations = [];
  group_members = [];
  messages = [];
  message_read = [];
  receipts = [];
  media = [];
}

-- A group of alice and bob that bob leaves.
abbrev bob_member : GroupMemberDoc
bob_member = record {
  id = lit "GM_g_bob";
  conversation_id = lit "g";
  user_id = lit "bob";
  role = lit "MEMBER";
  joined_at = pos 1;
  status = lit "ACTIVE";
}

abbrev group_repo : Repository lists
group_repo = record no_docs { group_members = bob_member ∷ [] }

abbrev group_left : Repository lists
group_left = record no_docs { group_members = (record bob_member { status = lit "INACTIVE" }) ∷ [] }

left_not_promoted_example :
    (handle
      (some (group_store_of lists (pos 5) (pos 7) (lit "n")))
      (promotes (lit "g") (lit "bob") (lit "alice"))
      group_left).0
    ≡ err internal
unfolding asked_to_leave leave_group update_first same
left_not_promoted_example =
    left_not_promoted lists (pos 5) (pos 7) (lit "n") lists-IsEngine (lit "g") (lit "bob")
      (lit "alice") group_repo group_left (unfold count_where same in omega arith) refl
