-- ===== src/Server/Uploads.antt =====
-- `RequestUpload`, `GetDownloadUrl` and `GetPresence` of app/server/grpc_server.go. The object storage
-- is the client library's: a function that gives a link and the time at which it expires.
pub mod Keys
use chat_service.RoomId.{colon}
use chat_service.Text.Decimal.{itoa}
use chat_service.Server.Calls.{invalid_argument, unimplemented, internal, Reply}
use chat_service.Presence.{PresenceInfo, LocalPresenceStore, get}
use chat_service.Prelude.{
  ltb_ℤ, none, ◌||◌, ok, some, [], ◌==◌, err, List, ◌++◌, if◌then◌else◌, ◌∷◌, pos, Result, Option,
  Bool, ℤ,
}
use chat_service.Text.{is_empty, lit, Bytes}

pub record UploadRequest : Type 0 where
  pub room_id : Bytes
  pub user_id : Bytes
  pub file_name : Bytes
  pub mime_type : Bytes
  pub file_size_bytes : ℤ

pub record UploadResponse : Type 0 where
  pub media_key : Bytes
  pub upload_url : Bytes
  pub expires_at_unix_ms : ℤ

-- storage.Storage: a link to put an object of a type and a size, and one to get an object
pub record Storage : Type 0 where
  pub put_presigned_url : Bytes → Bytes → ℤ → Result Bytes (Bytes × ℤ)
  pub get_presigned_url : Bytes → Result Bytes (Bytes × ℤ)

-- What the goroutine saves: SaveMediaUpload with the key and the time of expiry.
pub record SavedUpload : Type 0 where
  pub media_key : Bytes
  pub request : UploadRequest
  pub expires_at : ℤ

-- strings.ReplaceAll(key, ":", "_")
unfoldable pub no_colons : Bytes → Bytes
no_colons [] = []
no_colons (c ∷ s) = (if c == colon then b'_' else c) ∷ no_colons s

-- fmt.Sprintf("rooms/%s/%s/%d/%s", …)
abbrev pub raw_key : ℤ → UploadRequest → Bytes
raw_key now req =
    lit "rooms/"
    ++ (req.room_id ++ b'/' ∷ (req.user_id ++ b'/' ∷ (itoa now ++ b'/' ∷ req.file_name)))

-- The key, with its colons replaced.
unfoldable pub upload_key : ℤ → UploadRequest → Bytes
unfolding no_colons
upload_key now req = no_colons (raw_key now req)

abbrev pub max_file_bytes : ℤ
max_file_bytes = pos 104857600

put_reply :
    Bytes
    → UploadRequest
    → Bool
    → Result Bytes (Bytes × ℤ)
    → Reply UploadResponse × List SavedUpload
put_reply key req has_repo (err e) = (err internal, [])
put_reply key req has_repo (ok (url, expires)) = (
  ok (record { media_key = key; upload_url = url; expires_at_unix_ms = expires }),
  if has_repo then record { media_key = key; request = req; expires_at = expires } ∷ [] else [],
)

upload_to : Option Storage → Bool → ℤ → UploadRequest → Reply UploadResponse × List SavedUpload
unfolding put_reply upload_key
upload_to none has_repo now req = (err unimplemented, [])
upload_to (some st) has_repo now req =
    if is_empty req.user_id || is_empty req.room_id || is_empty req.file_name
    then (err invalid_argument, [])
    else if ltb_ℤ max_file_bytes req.file_size_bytes
    then (err invalid_argument, [])
    else put_reply (upload_key now req) req has_repo
        (st.put_presigned_url (upload_key now req) req.mime_type req.file_size_bytes)

-- RequestUpload: the reply, and what its goroutine saves
unfoldable pub request_upload :
    Option Storage → Bool → ℤ → UploadRequest → Reply UploadResponse × List SavedUpload
unfolding upload_to
request_upload storage has_repo now req = upload_to storage has_repo now req

unfoldable pub download_from : Option Storage → Bytes → Reply (Bytes × ℤ)
download_from none key = err unimplemented
download_from (some st) key =
    if is_empty key
    then err invalid_argument
    else elim (st.get_presigned_url key) [ ok found ↦ ok found | err e ↦ err internal ]

-- GetDownloadUrl
unfoldable pub get_download_url : Option Storage → Bytes → Reply (Bytes × ℤ)
unfolding download_from
get_download_url storage key = download_from storage key

-- GetPresence
pub get_presence : LocalPresenceStore → List Bytes → Reply (List PresenceInfo)
unfolding get
get_presence store [] = err invalid_argument
get_presence store (user ∷ users) = ok (get store (user ∷ users))
