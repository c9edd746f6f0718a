-- ===== src/Hub/Clients.antt =====
-- Sets of clients: `map[*Client]struct{}` of app/chat/hub.go.
use chat_service.Hub.{no_clients, delete_client, has_client, add_client}
use chat_service.Prelude.{
  length, refl, [], All, suc, inr, not, ◌==◌, true, arith, inl, ◌&&◌, ◌||◌, false, ◌∷◌, Bool-cases,
  ◌≡◌, ℕ, List,
}

-- No client is listed twice.
abbrev pub NoDuplicates : List ℕ → Type 0
NoDuplicates [] = Unit
NoDuplicates (c ∷ cs) = (has_client cs c ≡ false) × NoDuplicates cs

pub has_client-add_client :
    (c d : ℕ) (ds : List ℕ) → has_client (add_client c ds) d ≡ (has_client ds d || (c == d))
unfolding add_client
has_client-add_client c d ds = elim (Bool-cases (has_client ds c)) [
  | inl x ↦ rw x (ground (arith, x))
  | inr x ↦ rw x (ground arith)
]

pub has_client-delete_client :
    (c d : ℕ) (ds : List ℕ) → has_client (delete_client c ds) d ≡ (has_client ds d && not (c == d))
unfolding has_client delete_client
has_client-delete_client c d [] = refl
has_client-delete_client c d (e ∷ ds) = ground (arith, has_client-delete_client c d ds)

pub NoDuplicates-add_client :
    (c : ℕ) (ds : List ℕ) → NoDuplicates ds → NoDuplicates (add_client c ds)
unfolding add_client
NoDuplicates-add_client c ds h = elim (Bool-cases (has_client ds c)) [
  | inl x ↦ rw x h
  | inr x ↦ rw x (x, h)
]

pub NoDuplicates-delete_client :
    (c : ℕ) (ds : List ℕ) → NoDuplicates ds → NoDuplicates (delete_client c ds)
unfolding delete_client
NoDuplicates-delete_client c [] h = tt
NoDuplicates-delete_client c (d ∷ ds) h =
    ground (arith, has_client-delete_client c d ds, NoDuplicates-delete_client c ds h.1)

pub delete_client_absent : (c : ℕ) (ds : List ℕ) → has_client ds c ≡ false → delete_client c ds ≡ ds
unfolding has_client delete_client
delete_client_absent c [] h = refl
delete_client_absent c (d ∷ ds) h = ground (arith, delete_client_absent c ds)

pub length-delete_client :
    (c : ℕ) (ds : List ℕ)
    → NoDuplicates ds
    → has_client ds c ≡ true
    → suc (length (delete_client c ds)) ≡ length ds
unfolding has_client delete_client
length-delete_client c [] nd h = cc
length-delete_client c (d ∷ ds) nd h =
    ground (arith, delete_client_absent c ds, length-delete_client c ds nd.1)

pub All-has_client {κ} :
    (P : ℕ → Type κ) (cs : List ℕ) → ((c : ℕ) → has_client cs c ≡ true → P c) → All P cs
unfolding has_client
All-has_client P [] f = tt
All-has_client P (c ∷ cs) f =
    (f c (ground arith), All-has_client P cs (λ d h. f d (ground (arith, h))))

pub no_clients-add_client : (c : ℕ) (ds : List ℕ) → no_clients (add_client c ds) ≡ false
unfolding add_client has_client
no_clients-add_client c [] = refl
no_clients-add_client c (d ∷ ds) = ground arith
