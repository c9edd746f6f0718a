-- ===== src/RoomId.antt =====
-- Room identifiers: `normalizeRoomID` of app/server/grpc_server.go, and `splitRoomID` and
-- `roomIDAliases` of app/repository/mongodb.go.
pub mod Canonical
pub mod Hyphen
pub mod Aliases
pub mod Legacy
pub mod Tests
use chat_service.Prelude.{
  ℕ, suc, ◌≡◌, Bool, true, false, ◌&&◌, ◌||◌, Option, none, some, List, [], ◌∷◌, ◌++◌, leb, ltb,
  ◌==◌, if◌then◌else◌, length, take, drop, get_elem?,
}
use chat_service.Text.{Bytes, lit, is_empty, same, has_prefix}
use chat_service.Text.Order.{sort_strings}
use chat_service.Text.Trim.{trim_space}
use chat_service.Text.Split.{split, join}

abbrev pub colon : ℕ
colon = b':'

abbrev pub hyphen : ℕ
hyphen = b'-'

-- fmt.Sprintf("dm:%s:%s", ids[0], ids[1]) after sort.Strings(ids)
unfoldable pub dm_room_id : Bytes → Bytes → Bytes
unfolding sort_strings join
dm_room_id a b = lit "dm:" ++ join (colon ∷ []) (sort_strings (a ∷ b ∷ []))

-- The test on `parts`, and the two ids that it lets through.
unfoldable pub pair_of_parts : ℕ → List Bytes → Option (Bytes × Bytes)
unfolding join
pair_of_parts sep (p ∷ a ∷ b ∷ rest) =
    let user_b = join (sep ∷ []) (b ∷ rest) in
    if is_empty a || is_empty b
    then none
    else if is_empty a || is_empty user_b
    then none
    else some (a, user_b)
pair_of_parts sep _ = none

-- `some` is the pair that a branch of `normalizeRoomID` returns on, `none` falls through.
unfoldable pub split_pair : Bytes → ℕ → Bytes → Option (Bytes × Bytes)
unfolding pair_of_parts split has_prefix
split_pair prefix sep id = if has_prefix id prefix then pair_of_parts sep (split sep id) else none

-- rest[36] == '_', where `rest` is long enough
abbrev pub is_underscore : Option ℕ → Bool
is_underscore none = false
is_underscore (some c) = c == b'_'

-- CONV_<36 bytes>_<36 bytes or more>
unfoldable pub legacy_pair : Bytes → Option (Bytes × Bytes)
unfolding has_prefix
legacy_pair id =
    let rest = drop 5 id in
    if has_prefix id (lit "CONV_")
    then (if leb 73 (length rest) && is_underscore (get_elem? rest 36)
        then some (take 36 rest, drop 37 rest)
        else none)
    else none

abbrev pub room_of_pair : Option (Bytes × Bytes) → Bytes → Bytes
room_of_pair none otherwise = otherwise
room_of_pair (some (a, b)) otherwise = dm_room_id a b

unfoldable pub normalize_trimmed : Bytes → Bytes
unfolding split_pair legacy_pair
normalize_trimmed id =
    if is_empty id
    then id
    else room_of_pair (split_pair (lit "dm-") hyphen id)
        (room_of_pair (split_pair (lit "dm:") colon id) (room_of_pair (legacy_pair id) id))

-- normalizeRoomID
unfoldable pub normalize_room_id : Bytes → Bytes
unfolding normalize_trimmed trim_space
normalize_room_id room_id = normalize_trimmed (trim_space room_id)

-- The position of the first ':' or '-'.
pub separator_at : Bytes → Option ℕ
separator_at [] = none
separator_at (c ∷ s) =
    let rest = separator_at s in
    if (c == colon) || (c == hyphen)
    then some 0
    else elim rest [ none ↦ none | some i ↦ some (suc i) ]

-- splitRoomID; [] is Go's nil
unfoldable pub split_room_id : Bytes → List Bytes
unfolding separator_at
split_room_id room_id =
    let rest = drop 3 room_id in
    if leb (length room_id) 3
    then []
    else elim (separator_at rest) [ none ↦ [] | some i ↦ take i rest ∷ drop (suc i) rest ∷ [] ]

-- `_, ok := seen[id]`: `seen` always holds what `out` holds.
unfoldable pub contains : List Bytes → Bytes → Bool
unfolding same
contains [] id = false
contains (x ∷ xs) id = same x id || contains xs id

-- the closure `add`
unfoldable pub add_alias : List Bytes → Bytes → List Bytes
add_alias out raw =
    let id = trim_space raw in
    if is_empty id then out else if contains out id then out else out ++ id ∷ []

abbrev pub legacy_id : Bytes → Bytes → Bytes
legacy_id a b = lit "CONV_" ++ a ++ b'_' ∷ b

unfoldable pub add_aliases : List Bytes → List Bytes → List Bytes
add_aliases out [] = out
add_aliases out (raw ∷ rest) = add_aliases (add_alias out raw) rest

-- the closure `canonicalDM`
unfoldable pub canonical_dm : Bytes → Bytes → List Bytes → List Bytes
canonical_dm a b out =
    if is_empty a || is_empty b
    then out
    else add_aliases out (
        dm_room_id a b
        ∷ (lit "CONV_" ++ join (lit "_") (sort_strings (a ∷ b ∷ [])))
        ∷ legacy_id a b
        ∷ legacy_id b a
        ∷ [])

abbrev pub pair_aliases : Option (Bytes × Bytes) → List Bytes → List Bytes
pair_aliases none out = out
pair_aliases (some (a, b)) out = canonical_dm a b out

-- `len(parts) >= 3` alone: here empty parts are left to `canonicalDM`.
pub alias_parts : List Bytes → Option (Bytes × Bytes)
alias_parts (p ∷ a ∷ b ∷ rest) = some (a, join (colon ∷ []) (b ∷ rest))
alias_parts _ = none

unfoldable pub aliases_of_trimmed : Bytes → List Bytes
unfolding alias_parts legacy_pair split has_prefix
aliases_of_trimmed id =
    if is_empty id
    then []
    else if has_prefix id (lit "dm:")
    then pair_aliases (alias_parts (split colon id)) (id ∷ [])
    else pair_aliases (legacy_pair id) (id ∷ [])

-- roomIDAliases
unfoldable pub room_id_aliases : Bytes → List Bytes
unfolding aliases_of_trimmed
room_id_aliases room_id = aliases_of_trimmed (trim_space room_id)
