-- ===== src/Rooms/Statements.antt =====
-- What app/repository/postgres.go asks of PostgreSQL, with the documented effect of each kind of
-- statement on the rows of a table. A condition of the source is a Boolean function of the row.
use chat_service.Prelude.{
  [], true, some, ok, none, ◌++◌, if◌then◌else◌, ◌≡◌, Result, Option, map, ◌∷◌, List, Bool,
}
use chat_service.Rooms.Shuffled.{Shuffled}
use chat_service.Store.Engine.{Done, done}
use chat_service.Text.{Bytes}

module _ {R : Type 0} (p : R → Bool) where
  -- WHERE
  unfoldable pub where_rows : List R → List R
  where_rows [] = []
  where_rows (r ∷ rs) = let rest = where_rows rs in if p r then r ∷ rest else rest

  -- INSERT ... ON CONFLICT (...) DO NOTHING: `p` holds of the rows in conflict
  unfoldable pub insert_rows : R → List R → List R
  insert_rows r [] = r ∷ []
  insert_rows r (s ∷ rs) = let rest = insert_rows r rs in if p s then s ∷ rs else s ∷ rest

  -- INSERT ... ON CONFLICT (...) DO UPDATE SET
  unfoldable pub upsert_rows : (R → R) → R → List R → List R
  upsert_rows f r [] = r ∷ []
  upsert_rows f r (s ∷ rs) = let rest = upsert_rows f r rs in if p s then f s ∷ rs else s ∷ rest

module _ {R S : Type 0} where
  unfoldable pub beside : R → List S → List (R × S)
  beside r ss = map (λ s. (r, s)) ss

  -- R JOIN S ON on
  unfoldable pub join_rows : (R → S → Bool) → List R → List S → List (R × S)
  unfolding beside
  join_rows on [] ss = []
  join_rows on (r ∷ rs) ss = beside r (where_rows (on r) ss) ++ join_rows on rs ss

  -- A row of R that has no partner stands beside NULL.
  unfoldable pub beside_or_null : R → List S → List (R × Option S)
  beside_or_null r [] = (r, none) ∷ []
  beside_or_null r (s ∷ ss) = (r, some s) ∷ map (λ u. (r, some u)) ss

  -- R LEFT JOIN S ON on
  unfoldable pub left_join_rows : (R → S → Bool) → List R → List S → List (R × Option S)
  left_join_rows on [] ss = []
  left_join_rows on (r ∷ rs) ss = beside_or_null r (where_rows (on r) ss) ++ left_join_rows on rs ss

-- A table is a value of `Table`. A statement returns its answer or an error, and the table after it,
-- of which nothing is known after an error. The Boolean of `insert_new` and `upsert` says whether the
-- row meets the constraints of the schema.
pub record Sql : Type 1 where
  pub Table : Type 0 → Type 0
  pub rows : {R : Type 0} → Table R → List R
  pub insert_new : {R : Type 0} → (R → Bool) → Bool → R → Table R → Result Bytes Done × Table R
  pub upsert :
      {R : Type 0} → (R → Bool) → (R → R) → Bool → R → Table R → Result Bytes Done × Table R
  pub select : {R : Type 0} → (R → Bool) → Table R → Result Bytes (List R)
  -- The rows that are read where the code does not ask for rows.Err(): reading can have stopped early.
  pub select_read : {R : Type 0} → (R → Bool) → Table R → Result Bytes (List R)
  -- SELECT ... FROM R JOIN S ON on WHERE p of the row of S
  pub select_join :
      {R S : Type 0} → (R → S → Bool) → (S → Bool) → Table R → Table S → Result Bytes (List (R × S))
  -- SELECT ... FROM R LEFT JOIN S ON on WHERE p of the row of R
  pub select_left_join :
      {R S : Type 0}
      → (R → S → Bool)
      → (R → Bool)
      → Table R
      → Table S
      → Result Bytes (List (R × Option S))

module _ (q : Sql) where
  -- What the statements that succeed do. Rows are selected in any order.
  pub record IsSql : Type 1 where
    pub inserted :
        {R : Type 0} (p : R → Bool) (allowed : Bool) (r : R) (t t' : q.Table R)
        → q.insert_new p allowed r t ≡ (ok done, t')
        → (allowed ≡ true) × (q.rows t' ≡ insert_rows p r (q.rows t))
    pub upserted :
        {R : Type 0} (p : R → Bool) (f : R → R) (allowed : Bool) (r : R) (t t' : q.Table R)
        → q.upsert p f allowed r t ≡ (ok done, t')
        → (allowed ≡ true) × (q.rows t' ≡ upsert_rows p f r (q.rows t))
    pub selected :
        {R : Type 0} (p : R → Bool) (t : q.Table R) (rs : List R)
        → q.select p t ≡ ok rs
        → Shuffled rs (where_rows p (q.rows t))
    pub selected_read :
        {R : Type 0} (p : R → Bool) (t : q.Table R) (rs : List R)
        → q.select_read p t ≡ ok rs
        → (unread : List R) × Shuffled (rs ++ unread) (where_rows p (q.rows t))
    pub joined :
        {R S : Type 0} (on : R → S → Bool) (p : S → Bool) (t : q.Table R) (u : q.Table S)
        (rs : List (R × S))
        → q.select_join on p t u ≡ ok rs
        → Shuffled rs (join_rows on (q.rows t) (where_rows p (q.rows u)))
    pub left_joined :
        {R S : Type 0} (on : R → S → Bool) (p : R → Bool) (t : q.Table R) (u : q.Table S)
        (rs : List (R × Option S))
        → q.select_left_join on p t u ≡ ok rs
        → Shuffled rs (left_join_rows on (where_rows p (q.rows t)) (q.rows u))
