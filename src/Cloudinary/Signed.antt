-- ===== src/Cloudinary/Signed.antt =====
-- The signature of app/storage/cloudinary.go does not depend on the order in which Go walks a map.
use chat_service.Text.Split.{join}
use chat_service.Rooms.{or_empty}
use chat_service.Prelude.{
  ◌≡◌, refl, sym, ap, ◌∙◌, ◌∷◌, [], ◌++◌, map, none, some, arith, if◌then◌else◌, List,
}
use chat_service.Text.{Bytes, same, same_iff}
use chat_service.Text.Assoc.{lookup}
use chat_service.Text.Order.{sort_strings, sort_strings_swap, sort_strings_cons}
use chat_service.Rooms.Shuffled.{Shuffled, same_nil, same_head, swapped, twice, Shuffled-map}
use chat_service.Cloudinary.{hex, CloudinaryStorage, part, sign, to_sign}

-- No name occurs twice.
abbrev pub Distinct : List (Bytes × Bytes) → Type 0
Distinct [] = Unit
Distinct ((k, v) ∷ m) = (lookup k m ≡ none) × Distinct m

Shuffled-sort_strings : {ss ts : List Bytes} → Shuffled ss ts → sort_strings ss ≡ sort_strings ts
Shuffled-sort_strings same_nil = refl
Shuffled-sort_strings (same_head x {xs = xs} {ys = ys} s) =
    sort_strings_cons x xs ys (Shuffled-sort_strings s)
Shuffled-sort_strings (swapped x y xs) = sort_strings_swap y x xs
Shuffled-sort_strings (twice s t) = Shuffled-sort_strings s ∙ Shuffled-sort_strings t

-- The same entries in another order: no name occurs twice, and each has the same value.
Shuffled-lookup :
    {m n : List (Bytes × Bytes)}
    → Shuffled m n
    → Distinct m
    → Distinct n × ((k : Bytes) → lookup k m ≡ lookup k n)
unfolding lookup
Shuffled-lookup same_nil d = (d, λ k. refl)
Shuffled-lookup (same_head (j, v) s) d =
    let (d2, at) = Shuffled-lookup s d.1 in
    ((sym (at j) ∙ d.0, d2), λ k. ap (λ o. if same j k then some v else o) (at k))
Shuffled-lookup (swapped (i, v) (j, w) xs) d = (
  (
    ground (arith, d.0, d.1.0, same_iff i j, same_iff j i),
    (ground (arith, d.0, same_iff i j), d.1.1),
  ),
  λ k. ground (arith, d.0, same_iff i j, same_iff i k, same_iff j k),
)
Shuffled-lookup (twice s t) d =
    let (d2, at) = Shuffled-lookup s d in
    let (d3, at2) = Shuffled-lookup t d2 in (d3, λ k. at k ∙ at2 k)

map_cong : (f g : Bytes → Bytes) (ks : List Bytes) → ((k : Bytes) → f k ≡ g k) → map f ks ≡ map g ks
map_cong f g [] h = refl
map_cong f g (k ∷ ks) h = rw (h k, map_cong f g ks h) refl

-- Go walks a map in any order: for every order of parameters whose names are distinct, PutPresignedURL
-- makes the same signature.
pub sign-Shuffled :
    (sha1 : Bytes → Bytes) (c : CloudinaryStorage) {params others : List (Bytes × Bytes)}
    → Shuffled params others
    → Distinct params
    → sign sha1 c params ≡ sign sha1 c others
unfolding sign to_sign part lookup or_empty
sign-Shuffled sha1 c {params} {others} s d =
    let (d2, at) = Shuffled-lookup s d in
    let names : map (part params) (sort_strings (map (λ p. p.0) params))
        ≡ map (part others) (sort_strings (map (λ p. p.0) others)) =
      ap (λ ks. map (part params) ks) (Shuffled-sort_strings (Shuffled-map (λ p. p.0) s))
      ∙ map_cong (part params) (part others) (sort_strings (map (λ p. p.0) others))
          (λ k. ap (λ o. k ++ b'=' ∷ or_empty o) (at k)) in
    ap (λ parts. hex (sha1 (join (b'&' ∷ []) parts ++ c.api_secret))) names
