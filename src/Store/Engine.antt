-- ===== src/Store/Engine.antt =====
-- What the repository asks of MongoDB, with the documented effect of each command on the documents of
-- a collection. A filter of the source is a Boolean function of the document, an update a function.
use chat_service.Prelude.{
  ◌≤◌, length, true, [], suc, false, ◌++◌, if◌then◌else◌, All, ◌∷◌, ok, Result, ℕ, ◌≡◌, List, Bool,
}
use chat_service.Text.{Bytes}

module _ {D : Type 0} (p : D → Bool) (f : D → D) where
  -- UpdateOne: no document matches, or one that does is changed.
  pub data Updated : List D → ℕ → List D → Type 0 where
    missed : {ds : List D} → All (λ d. p d ≡ false) ds → Updated ds 0 ds
    hit :
        {d : D} (before after : List D)
        → p d ≡ true
        → Updated (before ++ d ∷ after) 1 (before ++ f d ∷ after)

  -- UpdateMany
  unfoldable pub update_all : List D → List D
  update_all [] = []
  update_all (d ∷ ds) = (if p d then f d else d) ∷ update_all ds

module _ {D : Type 0} (p : D → Bool) where
  unfoldable pub count_where : List D → ℕ
  count_where [] = 0
  count_where (d ∷ ds) = let rest = count_where ds in if p d then suc rest else rest

-- The answer of a command that has none.
pub data Done : Type 0 where
  done : Done

-- A collection of documents of one type is a value of `Coll`. A command returns its answer or an
-- error, and the collection after it, of which nothing is known after an error.
pub record Engine : Type 1 where
  pub Coll : Type 0 → Type 0
  pub docs : {D : Type 0} → Coll D → List D
  pub insert_one : {D : Type 0} → D → Coll D → Result Bytes Done × Coll D
  pub insert_many : {D : Type 0} → List D → Coll D → Result Bytes Done × Coll D
  -- the number of documents that matched
  pub update_one : {D : Type 0} → (D → Bool) → (D → D) → Coll D → Result Bytes ℕ × Coll D
  -- with upsert, and the document to insert where none matches
  pub upsert_one : {D : Type 0} → (D → Bool) → (D → D) → D → Coll D → Result Bytes ℕ × Coll D
  pub update_many : {D : Type 0} → (D → Bool) → (D → D) → Coll D → Result Bytes ℕ × Coll D
  pub delete_one : {D : Type 0} → (D → Bool) → Coll D → Result Bytes Done × Coll D
  pub delete_many : {D : Type 0} → (D → Bool) → Coll D → Result Bytes Done × Coll D
  pub count_documents : {D : Type 0} → (D → Bool) → Coll D → Result Bytes ℕ
  pub find_one : {D : Type 0} → (D → Bool) → Coll D → Result Bytes D
  pub find : {D : Type 0} → (D → Bool) → Coll D → Result Bytes (List D)
  -- in an order, and no more than a limit
  pub find_sorted : {D : Type 0} → (D → Bool) → (D → D → Bool) → ℕ → Coll D → Result Bytes (List D)

module _ (db : Engine) where
  -- What the commands that succeed do.
  pub record IsEngine : Type 1 where
    pub inserted :
        {D : Type 0} (d : D) (c c' : db.Coll D)
        → db.insert_one d c ≡ (ok done, c')
        → db.docs c' ≡ db.docs c ++ d ∷ []
    pub inserted_many :
        {D : Type 0} (ds : List D) (c c' : db.Coll D)
        → db.insert_many ds c ≡ (ok done, c')
        → db.docs c' ≡ db.docs c ++ ds
    pub updated :
        {D : Type 0} (p : D → Bool) (f : D → D) (n : ℕ) (c c' : db.Coll D)
        → db.update_one p f c ≡ (ok n, c')
        → Updated p f (db.docs c) n (db.docs c')
    pub updated_many :
        {D : Type 0} (p : D → Bool) (f : D → D) (n : ℕ) (c c' : db.Coll D)
        → db.update_many p f c ≡ (ok n, c')
        → db.docs c' ≡ update_all p f (db.docs c)
    pub counted :
        {D : Type 0} (p : D → Bool) (n : ℕ) (c : db.Coll D)
        → db.count_documents p c ≡ ok n
        → n ≡ count_where p (db.docs c)
    pub found_one :
        {D : Type 0} (p : D → Bool) (c : db.Coll D) (d : D) → db.find_one p c ≡ ok d → p d ≡ true
    pub found_sorted :
        {D : Type 0} (p : D → Bool) (before : D → D → Bool) (limit : ℕ) (c : db.Coll D)
        (ds : List D)
        → db.find_sorted p before limit c ≡ ok ds
        → All (λ d. p d ≡ true) ds × (length ds ≤ limit)
