-- ===== src/Server/Groups/Replies.antt =====
-- What the group calls of app/server/grpc_server.go answer, on every branch.
use chat_service.Prelude.{refl, ok, none, err, some, false, true, ◌||◌, ◌≡◌, Option, Result, Bool}
use chat_service.Server.Calls.{Reply, internal, invalid_argument, unimplemented}
use chat_service.Server.Groups.{
  GroupStore, add_group_member, delete_group, guarded, leave_group, or_internal, promote_admin,
  remove_group_member, transfer_ownership,
}
use chat_service.Store.Engine.{Done, done}
use chat_service.Text.{is_empty, Bytes}

-- A request of one of the calls that change a group.
pub data GroupCall : Type 0 where
  adds : Bytes → Bytes → Bytes → Bytes → GroupCall
  removes : Bytes → Bytes → Bytes → GroupCall
  leaves : Bytes → Bytes → GroupCall
  promotes : Bytes → Bytes → Bytes → GroupCall
  transfers : Bytes → Bytes → Bytes → GroupCall
  deletes : Bytes → Bytes → GroupCall

-- The two ids that the request must have.
abbrev pub required : GroupCall → Bytes × Bytes
required (adds conv user operator role) = (conv, user)
required (removes conv user operator) = (conv, user)
required (leaves conv user) = (conv, user)
required (promotes conv user operator) = (conv, user)
required (transfers conv current new_owner) = (conv, new_owner)
required (deletes conv owner) = (conv, owner)

abbrev pub lacks_id : GroupCall → Bool
lacks_id c = is_empty (required c).0 || is_empty (required c).1

module _ {S : Type 0} where
  -- What the store is asked for a request.
  abbrev pub perform : GroupCall → GroupStore S → S → Result Bytes Done × S
  perform (adds conv user operator role) r s = r.add_group_member conv user operator role s
  perform (removes conv user operator) r s = r.remove_group_member conv user operator s
  perform (leaves conv user) r s = r.leave_group conv user s
  perform (promotes conv user operator) r s = r.promote_admin conv user operator s
  perform (transfers conv current new_owner) r s = r.transfer_ownership conv current new_owner s
  perform (deletes conv owner) r s = r.delete_group conv owner s

  -- The handler of a request.
  abbrev pub handle : Option (GroupStore S) → GroupCall → S → Reply Done × S
  handle repo (adds conv user operator role) s = add_group_member repo conv user operator role s
  handle repo (removes conv user operator) s = remove_group_member repo conv user operator s
  handle repo (leaves conv user) s = leave_group repo conv user s
  handle repo (promotes conv user operator) s = promote_admin repo conv user operator s
  handle repo (transfers conv current new_owner) s =
      transfer_ownership repo conv current new_owner s
  handle repo (deletes conv owner) s = delete_group repo conv owner s

  -- How a request may end.
  pub data Ended (repo : Option (GroupStore S)) (c : GroupCall) (s : S)
      : Reply Done × S → Type 0 where
    refused : lacks_id c ≡ true → Ended repo c s (err invalid_argument, s)
    without_store : lacks_id c ≡ false → repo ≡ none → Ended repo c s (err unimplemented, s)
    failed :
        (r : GroupStore S) (e : Bytes) (s' : S)
        → lacks_id c ≡ false
        → repo ≡ some r
        → perform c r s ≡ (err e, s')
        → Ended repo c s (err internal, s')
    succeeded :
        (r : GroupStore S) (s' : S)
        → lacks_id c ≡ false
        → repo ≡ some r
        → perform c r s ≡ (ok done, s')
        → Ended repo c s (ok done, s')

  store_answers :
      (repo : Option (GroupStore S)) (c : GroupCall) (s : S) (r : GroupStore S)
      (x : Result Bytes Done × S)
      → lacks_id c ≡ false
      → repo ≡ some r
      → perform c r s ≡ x
      → Ended repo c s (or_internal x)
  store_answers repo c s r (err e, s') l e' h = failed r e s' l e' h
  store_answers repo c s r (ok done, s') l e' h = succeeded r s' l e' h

  ended :
      (b : Bool) (o repo : Option (GroupStore S)) (c : GroupCall) (s : S)
      → lacks_id c ≡ b
      → repo ≡ o
      → Ended repo c s (guarded b o (λ r. perform c r s) s)
  ended true o repo c s l e = refused l
  ended false none repo c s l e = without_store l e
  ended false (some r) repo c s l e = store_answers repo c s r (perform c r s) l e refl

  -- Each call that changes a group ends in one of four ways. A request without one of its two ids is
  -- an invalid argument and changes nothing; without a store of messages it is not implemented and
  -- changes nothing; otherwise the store is asked once, an error of it is an internal error, and
  -- success is told exactly where the store has succeeded.
  pub handle-Ended :
      (repo : Option (GroupStore S)) (c : GroupCall) (s : S) → Ended repo c s (handle repo c s)
  unfolding add_group_member remove_group_member leave_group promote_admin transfer_ownership
      delete_group
  handle-Ended repo (adds conv user operator role) s =
      ended _ repo repo (adds conv user operator role) s refl refl
  handle-Ended repo (removes conv user operator) s =
      ended _ repo repo (removes conv user operator) s refl refl
  handle-Ended repo (leaves conv user) s = ended _ repo repo (leaves conv user) s refl refl
  handle-Ended repo (promotes conv user operator) s =
      ended _ repo repo (promotes conv user operator) s refl refl
  handle-Ended repo (transfers conv current new_owner) s =
      ended _ repo repo (transfers conv current new_owner) s refl refl
  handle-Ended repo (deletes conv owner) s = ended _ repo repo (deletes conv owner) s refl refl
