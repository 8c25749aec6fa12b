-- ===== src/Store/Status/Normal.antt =====
-- What a status that is stored says of its owner.
use cloud_portfolio.Prelude.{
  ℕ, ◌≡◌, refl, sym, ap, ◌∙◌, not, Option, none, some, Text, codes, List, arith, pos, subst,
}
use cloud_portfolio.Errors.{Result, ok, err, >>=-eq-ok, raise_if, ◌>>=◌}
use cloud_portfolio.Json.{Value, null, bool, int, float, str, arr, obj, Fields, get, put, value_eq}
use cloud_portfolio.Json.Checks.{short_text, positive_bigint, or_raise, get_or, get_value, number}
use cloud_portfolio.Json.Lookup.{get-put, get-put_other}
use cloud_portfolio.Json.Structure.{validate_json_structure, max_json_wire_nesting_depth}
use cloud_portfolio.Database.Tables.{Database, RequestStatus}
use cloud_portfolio.Store.Status.{
  owner_field, owner_of, set_owner, normalized_request_status, store_normalized, stored,
  write_status, upsert_request_status,
}

abbrev pub IsBigint : ℕ → Type 0
IsBigint n = positive_bigint (some (number n)) ≡ some n

ok_inj : (a b : ℕ) → ok a ≡ ok b → a ≡ b
ok_inj a b h = cc

positive_bigint-IsBigint : (v : Value) (n : ℕ) → positive_bigint (some v) ≡ some n → IsBigint n
unfolding positive_bigint
positive_bigint-IsBigint (int (pos m)) n h = ground (arith, h)
positive_bigint-IsBigint _ n h = cc

abbrev AreBigints : Option ℕ → Type 0
AreBigints none = Unit
AreBigints (some n) = IsBigint n

checked-AreBigints :
    (message : Text) (v : Value) (p o : Option ℕ)
    → positive_bigint (some v) ≡ p
    → (or_raise p message >>= λ n. ok (some n)) ≡ ok o
    → AreBigints o
checked-AreBigints message v none o e h = cc
checked-AreBigints message v (some n) o e h =
    let same : some n ≡ o = cc in subst AreBigints same (positive_bigint-IsBigint v n e)

owner_field-AreBigints :
    (message : Text) (v : Value) (o : Option ℕ) → owner_field message v ≡ ok o → AreBigints o
unfolding owner_field
owner_field-AreBigints message null none h = tt
owner_field-AreBigints message null (some n) h = cc
owner_field-AreBigints message (bool b) o h = checked-AreBigints message (bool b) _ o refl h
owner_field-AreBigints message (int n) o h = checked-AreBigints message (int n) _ o refl h
owner_field-AreBigints message (float n t) o h = checked-AreBigints message (float n t) _ o refl h
owner_field-AreBigints message (str t) o h = checked-AreBigints message (str t) _ o refl h
owner_field-AreBigints message (arr x) o h = checked-AreBigints message (arr x) _ o refl h
owner_field-AreBigints message (obj d) o h = checked-AreBigints message (obj d) _ o refl h

owner_of-IsBigint :
    (actor user : Option ℕ) (owner : ℕ)
    → AreBigints actor
    → AreBigints user
    → owner_of actor user ≡ ok owner
    → IsBigint owner
unfolding owner_of
owner_of-IsBigint none none owner ha hu h = cc
owner_of-IsBigint none (some user) owner ha hu h = subst IsBigint (ok_inj _ _ h) hu
owner_of-IsBigint (some actor) none owner ha hu h = subst IsBigint (ok_inj _ _ h) ha
owner_of-IsBigint (some actor) (some user) owner ha hu h =
    let same : actor ≡ owner = ground (arith, h) in subst IsBigint same ha

set_owner-actor :
    (request_id : Text) (owner : ℕ) (d : Fields)
    → get (codes "actor_id") (set_owner request_id owner d) ≡ some (number owner)
unfolding set_owner
set_owner-actor request_id owner d =
    get-put (codes "actor_id") (number owner)
      (put (codes "user_id") (number owner) (put (codes "request_id") (str request_id) d))

set_owner-user :
    (request_id : Text) (owner : ℕ) (d : Fields)
    → get (codes "user_id") (set_owner request_id owner d) ≡ some (number owner)
unfolding set_owner
set_owner-user request_id owner d =
    get-put_other (codes "user_id") (codes "actor_id") (number owner) _ refl
    ∙ get-put (codes "user_id") (number owner) (put (codes "request_id") (str request_id) d)

-- A status that passes names its owner, by a valid id, under both names.
pub record IsOwned (owner : ℕ) (status : Fields) : Type 0 where
  pub actor_id : get (codes "actor_id") status ≡ some (number owner)
  pub user_id : get (codes "user_id") status ≡ some (number owner)
  pub bigint : IsBigint owner

pub normalized_request_status-owner :
    (request_id : Text) (payload status : Fields) (owner : ℕ)
    → normalized_request_status request_id payload ≡ ok (owner, status)
    → IsOwned owner status
unfolding normalized_request_status
normalized_request_status-owner request_id payload status owner h =
    let (u, e1, h1) =
      >>=-eq-ok
        (or_raise (short_text 80 (some (str request_id)))
            (codes "Invalid request status request_id")
          >>= λ _. ok tt)
        _ h in
    let (u, e2, h2) =
      >>=-eq-ok
        (raise_if
          (not (value_eq (get_or (codes "request_id") (str request_id) payload) (str request_id)))
          (codes "Request status request_id mismatch"))
        _ h1 in
    let (actor, e3, h3) =
      >>=-eq-ok
        (owner_field (codes "Invalid request status actor_id")
          (get_value (codes "actor_id") payload))
        _ h2 in
    let (user, e4, h4) =
      >>=-eq-ok
        (owner_field (codes "Invalid request status user_id") (get_value (codes "user_id") payload))
        _ h3 in
    let (id, e5, h5) = >>=-eq-ok (owner_of actor user) _ h4 in
    let (u, e6, h6) =
      >>=-eq-ok
        (validate_json_structure max_json_wire_nesting_depth
          (obj (set_owner request_id id payload)))
        _ h5 in
    let same_id : id ≡ owner = cc in
    let same_status : set_owner request_id id payload ≡ status = cc in
    let valid =
      owner_of-IsBigint actor user id
        (owner_field-AreBigints (codes "Invalid request status actor_id")
          (get_value (codes "actor_id") payload) actor e3)
        (owner_field-AreBigints (codes "Invalid request status user_id")
          (get_value (codes "user_id") payload) user e4)
        e5 in
    record {
      actor_id =
          ap (get (codes "actor_id")) (sym same_status)
          ∙ set_owner-actor request_id id payload
          ∙ ap (λ n. some (number n)) same_id;
      user_id =
          ap (get (codes "user_id")) (sym same_status)
          ∙ set_owner-user request_id id payload
          ∙ ap (λ n. some (number n)) same_id;
      bigint = subst IsBigint same_id valid;
    }

stored-IsOwned :
    (owner : ℕ) (status answer : Fields) (db db' : Database) (o : Option (List RequestStatus))
    → IsOwned owner status
    → stored status db o ≡ (ok answer, db')
    → IsOwned owner answer
unfolding stored
stored-IsOwned owner status answer db db' none owned h = cc
stored-IsOwned owner status answer db db' (some rows) owned h =
    let same : status ≡ answer = cc in subst (IsOwned owner) same owned

store_normalized-IsOwned :
    (request_id : Text) (payload answer : Fields) (db db' : Database) (r : Result (ℕ × Fields))
    → normalized_request_status request_id payload ≡ r
    → store_normalized request_id r db ≡ (ok answer, db')
    → (owner : ℕ) × IsOwned owner answer
unfolding store_normalized
store_normalized-IsOwned request_id payload answer db db' (err e) n h = cc
store_normalized-IsOwned request_id payload answer db db' (ok (owner, status)) n h = (
  owner,
  stored-IsOwned owner status answer db db' (write_status request_id owner status db.statuses)
      (normalized_request_status-owner request_id payload status owner n) h,
)

-- The same of a status that an upsert has returned.
pub upsert_request_status-IsOwned :
    (request_id : Text) (payload answer : Fields) (db db' : Database)
    → upsert_request_status request_id payload db ≡ (ok answer, db')
    → (owner : ℕ) × IsOwned owner answer
unfolding upsert_request_status
upsert_request_status-IsOwned request_id payload answer db db' h =
    store_normalized-IsOwned request_id payload answer db db'
      (normalized_request_status request_id payload) refl h
