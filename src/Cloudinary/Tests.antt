-- ===== src/Cloudinary/Tests.antt =====
-- Links of app/storage/cloudinary.go at concrete values, and its result at one of them. The digest of
-- these tests is the text itself.
use chat_service.Text.Assoc.{lookup}
use chat_service.Text.Order.{sort_strings}
use chat_service.Text.Split.{join}
use chat_service.Prelude.{refl, ◌≡◌, ◌∷◌, [], ok, pos, some, List}
use chat_service.Text.{same, Bytes, lit}
use chat_service.Text.Decimal.{itoa}
use chat_service.Rooms.Shuffled.{swapped}
use chat_service.Server.Uploads.{get_download_url}
use chat_service.Cloudinary.{CloudinaryStorage, hex, params_of, sign, storage_at, to_sign}
use chat_service.Cloudinary.Signed.{sign-Shuffled}

abbrev itself : Bytes → Bytes
itself s = s

abbrev account : CloudinaryStorage
account = record { cloud_name = lit "demo"; api_key = lit "17"; api_secret = lit "shh" }

digits : hex (10 ∷ 255 ∷ 9 ∷ []) ≡ lit "0aff09"
unfolding hex
digits = refl

abbrev other_order : List (Bytes × Bytes)
other_order = (lit "timestamp", itoa (pos 5)) ∷ (lit "public_id", lit "a") ∷ []

signed : to_sign (lit "shh") other_order ≡ lit "public_id=a&timestamp=5shh"
unfolding to_sign join sort_strings lookup same itoa
signed = refl

link :
    get_download_url (some (storage_at itself account (pos 5) 5000)) (lit "a.png")
    ≡ ok (lit "https://res.cloudinary.com/demo/auto/upload/a.png", pos 31536005000)
unfolding get_download_url storage_at
link = refl

sign-Shuffled_example :
    sign itself account other_order
    ≡ sign itself account (params_of itself account (pos 5) (lit "a"))
unfolding lookup same
sign-Shuffled_example =
    sign-Shuffled itself account
      (swapped (lit "public_id", lit "a") (lit "timestamp", itoa (pos 5)) []) (refl, (refl, tt))
