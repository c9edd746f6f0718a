-- ===== src/RoomId/Tests.antt =====
-- Runs of the room id functions, and the theorems at concrete ids.
use chat_service.Text.Trim.{trim_space}
use chat_service.RoomId.Legacy.{aliases_complete, aliases_sound}
use chat_service.Prelude.{true, [], ◌⊎◌, ◌∷◌, refl, arith, All, ◌≡◌}
use chat_service.RoomId.{
  legacy_id, add_alias, add_aliases, canonical_dm, dm_room_id, contains, room_id_aliases,
  split_room_id, normalize_room_id,
}
use chat_service.RoomId.Canonical.{
  dm_room_id_comm, dm_room_id_injective, normalize_spellings, IsUserId,
}
use chat_service.Text.{lit, Bytes}

abbrev alice : Bytes
alice = lit "alice"

abbrev bob : Bytes
bob = lit "bob"

abbrev pub uuid_a : Bytes
uuid_a = lit "0b5e7a9c-1111-4222-8333-444455556666"

abbrev pub uuid_b : Bytes
uuid_b = lit "0b5e7a9c-1111-4222-8333-444455557777"

alice-IsUserId : IsUserId alice
alice-IsUserId = record { nonempty = refl; visible = omega arith; no_colon = omega arith }

bob-IsUserId : IsUserId bob
bob-IsUserId = record { nonempty = refl; visible = omega arith; no_colon = omega arith }

pub uuid_a-IsUserId : IsUserId uuid_a
uuid_a-IsUserId = record { nonempty = refl; visible = omega arith; no_colon = omega arith }

pub uuid_b-IsUserId : IsUserId uuid_b
uuid_b-IsUserId = record { nonempty = refl; visible = omega arith; no_colon = omega arith }

-- the cases of grpc_server_test.go
colon_format : normalize_room_id (lit "dm:alice:bob") ≡ lit "dm:alice:bob"
unfolding normalize_room_id dm_room_id
colon_format = refl

reversed_hyphen_format : normalize_room_id (lit "dm-bob-alice") ≡ lit "dm:alice:bob"
unfolding normalize_room_id dm_room_id
reversed_hyphen_format = refl

group_room_unchanged : normalize_room_id (lit " group:xyz ") ≡ lit "group:xyz"
unfolding normalize_room_id
group_room_unchanged = refl

-- An id with a colon: normalising twice is not the same as normalising once.
not_idempotent :
    (normalize_room_id (lit "dm:c:b:a") ≡ lit "dm:b:a:c")
    × (normalize_room_id (lit "dm:b:a:c") ≡ lit "dm:a:c:b")
unfolding normalize_room_id dm_room_id
not_idempotent = (refl, refl)

split_hyphen : split_room_id (lit "dm-a-b") ≡ lit "a" ∷ lit "b" ∷ []
unfolding split_room_id
split_hyphen = refl

aliases_of_pair :
    room_id_aliases (lit "dm:bob:alice")
    ≡ lit "dm:bob:alice" ∷ lit "dm:alice:bob" ∷ lit "CONV_alice_bob" ∷ lit "CONV_bob_alice" ∷ []
unfolding room_id_aliases canonical_dm add_aliases add_alias trim_space dm_room_id contains
aliases_of_pair = refl

normalize_spellings_example :
    (normalize_room_id (lit "dm:bob:alice") ≡ dm_room_id bob alice)
    × (normalize_room_id (lit "dm:alice:bob") ≡ dm_room_id bob alice)
    × (normalize_room_id (dm_room_id bob alice) ≡ dm_room_id bob alice)
normalize_spellings_example = normalize_spellings bob alice bob-IsUserId alice-IsUserId

dm_room_id_injective_example : ((alice ≡ bob) × (bob ≡ alice)) ⊎ ((alice ≡ alice) × (bob ≡ bob))
dm_room_id_injective_example =
    dm_room_id_injective alice bob bob alice alice-IsUserId.no_colon bob-IsUserId.no_colon
      bob-IsUserId.no_colon alice-IsUserId.no_colon (dm_room_id_comm alice bob)

aliases_sound_example :
    All
      (λ id. normalize_room_id id ≡ dm_room_id uuid_b uuid_a)
      (room_id_aliases (dm_room_id uuid_b uuid_a))
aliases_sound_example = aliases_sound uuid_b uuid_a uuid_b-IsUserId uuid_a-IsUserId refl refl

aliases_complete_example :
    (contains (room_id_aliases (dm_room_id uuid_b uuid_a)) (dm_room_id uuid_b uuid_a) ≡ true)
    × (contains (room_id_aliases (dm_room_id uuid_b uuid_a)) (legacy_id uuid_b uuid_a) ≡ true)
    × (contains (room_id_aliases (dm_room_id uuid_b uuid_a)) (legacy_id uuid_a uuid_b) ≡ true)
aliases_complete_example = aliases_complete uuid_b uuid_a uuid_b-IsUserId uuid_a-IsUserId refl refl
