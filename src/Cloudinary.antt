-- ===== src/Cloudinary.antt =====
-- `CloudinaryStorage` of app/storage/cloudinary.go: the links for an upload and a download, and the
-- signature of the first. SHA-1 is an argument; times are seconds and milliseconds of the Unix clock.
pub mod Signed
pub mod Tests
use chat_service.Prelude.{
  ◌%◌, ◌/◌, ◌++◌, ◌+◌, ◌∷◌, [], ltb, map, none, some, ok, pos, if◌then◌else◌, ℕ, ℤ, List, Option,
}
use chat_service.Text.{Bytes, lit}
use chat_service.Text.Assoc.{lookup}
use chat_service.Text.Decimal.{itoa}
use chat_service.Text.Order.{sort_strings}
use chat_service.Text.Split.{join}
use chat_service.Server.Uploads.{Storage}

pub record CloudinaryStorage : Type 0 where
  pub cloud_name : Bytes
  pub api_key : Bytes
  pub api_secret : Bytes

abbrev pub hex_digit : ℕ → ℕ
hex_digit n = if ltb n 10 then 48 + n else 87 + n

-- fmt.Sprintf("%x", …) of bytes
unfoldable pub hex : Bytes → Bytes
hex [] = []
hex (n ∷ s) = hex_digit (n / 16) ∷ hex_digit (n % 16) ∷ hex s

-- params[k], empty where it is missing
abbrev pub or_empty : Option Bytes → Bytes
or_empty none = []
or_empty (some v) = v

unfoldable pub part : List (Bytes × Bytes) → Bytes → Bytes
part params k = k ++ b'=' ∷ or_empty (lookup k params)

-- What is signed: the parameters in the order of their names, and the secret. The list has the entries
-- of the map in the order in which Go walks it.
unfoldable pub to_sign : Bytes → List (Bytes × Bytes) → Bytes
unfolding part
to_sign secret params =
    join (b'&' ∷ []) (map (part params) (sort_strings (map (λ p. p.0) params))) ++ secret

module _ (sha1 : Bytes → Bytes) (c : CloudinaryStorage) where
  unfoldable pub sign : List (Bytes × Bytes) → Bytes
  unfolding hex to_sign
  sign params = hex (sha1 (to_sign c.api_secret params))

  abbrev pub params_of : ℤ → Bytes → List (Bytes × Bytes)
  params_of ts key = (lit "public_id", key) ∷ (lit "timestamp", itoa ts) ∷ []

  -- The link of PutPresignedURL, for the map in any order.
  unfoldable pub upload_link : ℤ → Bytes → List (Bytes × Bytes) → Bytes
  unfolding sign
  upload_link ts key params =
      lit "https://api.cloudinary.com/v1_1/"
      ++ (c.cloud_name
          ++ (lit "/auto/upload?api_key="
              ++ (c.api_key
                  ++ (lit "&timestamp="
                      ++ (itoa ts
                          ++ (lit "&public_id=" ++ (key ++ (lit "&signature=" ++ sign params))))))))

  -- The link of GetPresignedURL
  abbrev pub download_link : Bytes → Bytes
  download_link key =
      lit "https://res.cloudinary.com/" ++ (c.cloud_name ++ (lit "/auto/upload/" ++ key))

  -- Both links, as the object storage that the server asks, at a time: 15 minutes and 365 days.
  unfoldable pub storage_at : ℤ → ℕ → Storage
  unfolding upload_link
  storage_at ts now = record {
    put_presigned_url =
        λ key mime size. ok (upload_link ts key (params_of ts key), pos (now + 900000));
    get_presigned_url = λ key. ok (download_link key, pos (now + 31536000000));
  }
