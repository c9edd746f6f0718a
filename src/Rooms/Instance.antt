-- ===== src/Rooms/Instance.antt =====
-- A database whose tables are lists: an instance of `Sql`, for the runs of app/repository/postgres.go.
use chat_service.Prelude.{
  [], append-nil, refl, ap, false, sym, subst, true, err, ◌≡◌, ok, Result, List, Bool,
}
use chat_service.Rooms.Shuffled.{Shuffled, Shuffled-refl}
use chat_service.Rooms.Statements.{
  IsSql, Sql, insert_rows, join_rows, left_join_rows, upsert_rows, where_rows,
}
use chat_service.Rooms.Stored.{ok_same}
use chat_service.Store.Engine.{Done, done}
use chat_service.Text.{Bytes, lit}

-- A row that the schema does not allow is refused.
abbrev pub checked : {R : Type 0} → Bool → List R → List R → Result Bytes Done × List R
checked true old new = (ok done, new)
checked false old new = (err (lit "constraint"), old)

abbrev pub list_tables : Sql
list_tables = record {
  Table = λ R. List R;
  rows = λ t. t;
  insert_new = λ p allowed r t. checked allowed t (insert_rows p r t);
  upsert = λ p f allowed r t. checked allowed t (upsert_rows p f r t);
  select = λ p t. ok (where_rows p t);
  select_read = λ p t. ok (where_rows p t);
  select_join = λ on p t u. ok (join_rows on t (where_rows p u));
  select_left_join = λ on p t u. ok (left_join_rows on (where_rows p t) u);
}

checked_ok :
    {R : Type 0} (allowed : Bool) (old new t' : List R)
    → checked allowed old new ≡ (ok done, t')
    → (allowed ≡ true) × (t' ≡ new)
checked_ok true old new t' h = (refl, sym (ap (λ x. x.1) h))
checked_ok false old new t' h = cc (ap (λ x. x.0) h)

answered :
    {A : Type 0} (xs rs : List A) → Path (Result Bytes (List A)) (ok xs) (ok rs) → Shuffled rs xs
answered xs rs h = subst (λ v. Shuffled v xs) (ok_same h) (Shuffled-refl xs)

pub list_tables-IsSql : IsSql list_tables
list_tables-IsSql = record {
  inserted = λ p allowed r t t' h. checked_ok allowed t (insert_rows p r t) t' h;
  upserted = λ p f allowed r t t' h. checked_ok allowed t (upsert_rows p f r t) t' h;
  selected = λ p t rs h. answered (where_rows p t) rs h;
  selected_read = λ p t rs h. (
    [],
    subst (λ v. Shuffled v (where_rows p t)) (sym (append-nil rs)) (answered (where_rows p t) rs h),
  );
  joined = λ on p t u rs h. answered (join_rows on t (where_rows p u)) rs h;
  left_joined = λ on p t u rs h. answered (left_join_rows on (where_rows p t) u) rs h;
}
