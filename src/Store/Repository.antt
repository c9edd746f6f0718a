-- ===== src/Store/Repository.antt =====
-- The state of `MessageRepository`: its collections.
use chat_service.Prelude.{Result}
use chat_service.Store.Documents.{
  MediaUploadDoc, ReadReceiptDoc, MessageReadDoc, MessageDoc, GroupMemberDoc, ConversationDoc,
}
use chat_service.Store.Engine.{Engine}
use chat_service.Text.{Bytes}

module _ (db : Engine) where
  pub record Repository : Type 0 where
    pub conversations : db.Coll ConversationDoc
    pub group_members : db.Coll GroupMemberDoc
    pub messages : db.Coll MessageDoc
    pub message_read : db.Coll MessageReadDoc
    pub receipts : db.Coll ReadReceiptDoc
    pub media : db.Coll MediaUploadDoc

  -- A method: its answer or its error, and the collections after it.
  abbrev pub Method : Type 0 → Type 0
  Method A = Repository → Result Bytes A × Repository
