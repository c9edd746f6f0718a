-- ===== src/Server/Uploads/Keys.antt =====
-- The keys under which files are uploaded.
use chat_service.Prelude.{
  pos, none, inr, inl, Bool-cases, some, Result, Option, Bool, refl, ℤ, arith, All, true, ◌||◌,
  false, ltb_ℤ, ok, ◌≡◌, err, [], ◌∷◌, List,
}
use chat_service.RoomId.{colon}
use chat_service.Server.Calls.{Reply}
use chat_service.Server.Uploads.{
  raw_key, Storage, upload_to, request_upload, put_reply, upload_key, max_file_bytes, SavedUpload,
  UploadResponse, UploadRequest, no_colons,
}
use chat_service.Text.{has_prefix, is_empty, lit, Lacks, Bytes}

no_colons-Lacks : (s : Bytes) → Lacks colon (no_colons s)
unfolding no_colons
no_colons-Lacks [] = tt
no_colons-Lacks (c ∷ s) = ((λ e. ground arith), no_colons-Lacks s)

-- A reply allows an upload of at most 100 MB, for a user, a room and a name that are given, under a
-- key in the folder of rooms that has no colon, and what is saved of it has the same key.
abbrev pub Allowed : UploadRequest → Reply UploadResponse × List SavedUpload → Type 0
Allowed req (err e, saved) = saved ≡ []
Allowed req (ok r, saved) =
    (ltb_ℤ (pos 104857600) req.file_size_bytes ≡ false)
    × ((is_empty req.user_id || is_empty req.room_id || is_empty req.file_name) ≡ false)
    × Lacks colon r.media_key
    × (has_prefix r.media_key (lit "rooms/") ≡ true)
    × All (λ u. (u.media_key ≡ r.media_key) × (u.expires_at ≡ r.expires_at_unix_ms)) saved

upload_key-prefix :
    (now : ℤ) (req : UploadRequest) → has_prefix (upload_key now req) (lit "rooms/") ≡ true
unfolding upload_key no_colons has_prefix
upload_key-prefix now req = refl

upload_key-Lacks : (now : ℤ) (req : UploadRequest) → Lacks colon (upload_key now req)
unfolding upload_key
upload_key-Lacks now req = no_colons-Lacks (raw_key now req)

put_reply-Allowed :
    (now : ℤ) (req : UploadRequest) (has_repo : Bool) (r : Result Bytes (Bytes × ℤ))
    → ltb_ℤ max_file_bytes req.file_size_bytes ≡ false
    → (is_empty req.user_id || is_empty req.room_id || is_empty req.file_name) ≡ false
    → Allowed req (put_reply (upload_key now req) req has_repo r)
unfolding put_reply
put_reply-Allowed now req has_repo (err e) small given = refl
put_reply-Allowed now req true (ok (url, expires)) small given =
    (small, given, upload_key-Lacks now req, upload_key-prefix now req, ((refl, refl), tt))
put_reply-Allowed now req false (ok (url, expires)) small given =
    (small, given, upload_key-Lacks now req, upload_key-prefix now req, tt)

-- Whatever the storage answers: RequestUpload gives a link only for a file of at most 100 MB with a
-- user, a room and a name, under a key in the folder of rooms that has no colon, and what it saves of
-- the upload has the key and the time of expiry of the reply; with an error it saves nothing.
pub request_upload-Allowed :
    (storage : Option Storage) (has_repo : Bool) (now : ℤ) (req : UploadRequest)
    → Allowed req (request_upload storage has_repo now req)
unfolding request_upload upload_to
request_upload-Allowed none has_repo now req = refl
request_upload-Allowed (some st) has_repo now req =
    elim (Bool-cases (is_empty req.user_id || is_empty req.room_id || is_empty req.file_name)) [
      | inl e ↦ rw e refl
      | inr e ↦ elim (Bool-cases (ltb_ℤ max_file_bytes req.file_size_bytes)) [
        | inl f ↦ rw (e, f) refl
        | inr f ↦ rw (e, f) (put_reply-Allowed now req has_repo _ f e)
      ]
    ]
