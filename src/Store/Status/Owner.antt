-- ===== src/Store/Status/Owner.antt =====
-- The owner of a request's status, and what the upsert of a status leaves alone.
use cloud_portfolio.Prelude.{
  ℕ, ◌≡◌, refl, sym, ◌∙◌, ap, subst, ◌⊎◌, inl, inr, Bool, true, false, Option, none, some, List,
  if◌then◌else◌, Text, arith, text_eq, text_eq_iff, text_eq_refl, ◌≢◌, ==_iff, Bool-cases,
}
use cloud_portfolio.Errors.{Result, ok, err}
use cloud_portfolio.Json.{Fields}
use cloud_portfolio.Database.Tables.{Database, RequestStatus}
use cloud_portfolio.Database.Find.{find, find-append, find-replaced, find-elsewhere}
use cloud_portfolio.Store.Status.{
  normalized_request_status, is_request, may_write, write_status, write_over, status_row, stored,
  store_normalized, upsert_request_status, load_request_status, status_of,
}

stored-frame :
    (status : Fields) (db : Database) (o : Option (List RequestStatus))
    → (rows : List RequestStatus) × ((stored status db o).1 ≡ record db { statuses = rows })
unfolding stored
stored-frame status db none = (db.statuses, refl)
stored-frame status db (some rows) = (rows, refl)

store_normalized-frame :
    (request_id : Text) (r : Result (ℕ × Fields)) (db : Database)
    → (rows : List RequestStatus) × ((store_normalized request_id r db).1
        ≡ record db { statuses = rows })
unfolding store_normalized
store_normalized-frame request_id (err e) db = (db.statuses, refl)
store_normalized-frame request_id (ok (owner, status)) db =
    stored-frame status db (write_status request_id owner status db.statuses)

-- The upsert of a status changes the table of the statuses and no other.
pub upsert_request_status-frame :
    (request_id : Text) (payload : Fields) (db : Database)
    → (rows : List RequestStatus) × ((upsert_request_status request_id payload db).1
        ≡ record db { statuses = rows })
unfolding upsert_request_status
upsert_request_status-frame request_id payload db =
    store_normalized-frame request_id (normalized_request_status request_id payload) db

user_of : Option RequestStatus → Option ℕ
user_of none = none
user_of (some row) = row.user_id

-- The user that the row of a request names, where there is a row that names one.
unfoldable pub owner_at : Text → List RequestStatus → Option ℕ
unfolding find is_request user_of
owner_at request_id rows = user_of (find (is_request request_id) rows)

is_request-not :
    (a b : Text) (row : RequestStatus) → a ≢ b → is_request a row ≡ true → is_request b row ≡ false
unfolding is_request
is_request-not a b row d h =
    ground (arith, text_eq_iff row.request_id a, text_eq_iff row.request_id b, d)

is_request-own : (row : RequestStatus) → is_request row.request_id row ≡ true
unfolding is_request
is_request-own row = text_eq_refl row.request_id

some_inj {ℓ} : {A : Type ℓ} {a b : A} → some a ≡ some b → a ≡ b
some_inj h = cc

if_some {ℓ} : {A : Type ℓ} (c : Bool) {a b : A} → (if c then some a else none) ≡ some b → a ≡ b
if_some true h = cc
if_some false h = cc

ok_eq :
    (a b : Fields) (d e : Database)
    → ◌≡◌ {A = Result Fields × Database} (ok a, d) (ok b, e)
    → (a ≡ b) × (d ≡ e)
ok_eq a b d e h = (cc, cc)

-- The row that is written is found, if a row is written.
write_over-found :
    (row : RequestStatus) (owner : ℕ) (rows rows' : List RequestStatus) (o : Option RequestStatus)
    → find (is_request row.request_id) rows ≡ o
    → write_over row owner rows o ≡ some rows'
    → find (is_request row.request_id) rows' ≡ some row
unfolding write_over
write_over-found row owner rows rows' none e h =
    subst (λ l. find (is_request row.request_id) l ≡ some row) (some_inj h)
      (rw (find-append (is_request row.request_id) rows row, e, is_request-own row) refl)
write_over-found row owner rows rows' (some old) e h =
    subst (λ l. find (is_request row.request_id) l ≡ some row)
      (if_some (may_write owner old.user_id) h)
      (find-replaced (is_request row.request_id) row rows old (is_request-own row) e)

stored-loaded :
    (request_id : Text) (owner : ℕ) (status answer : Fields) (db db' : Database)
    (o : Option (List RequestStatus))
    → write_status request_id owner status db.statuses ≡ o
    → stored status db o ≡ (ok answer, db')
    → load_request_status request_id db' ≡ some (db'.jsonb answer)
unfolding stored write_status load_request_status status_row status_of
stored-loaded request_id owner status answer db db' none e h = cc
stored-loaded request_id owner status answer db db' (some rows) e h =
    let same = ok_eq status answer (record db { statuses = rows }) db' h in
    subst (λ (d : Database). load_request_status request_id d ≡ some (d.jsonb answer)) same.1
      (ap (status_of db.jsonb) (
          write_over-found (status_row request_id owner status) owner db.statuses rows
            (find (is_request request_id) db.statuses) refl e)
        ∙ ap (λ a. some (db.jsonb a)) same.0)

store_normalized-loaded :
    (request_id : Text) (r : Result (ℕ × Fields)) (answer : Fields) (db db' : Database)
    → store_normalized request_id r db ≡ (ok answer, db')
    → load_request_status request_id db' ≡ some (db'.jsonb answer)
unfolding store_normalized
store_normalized-loaded request_id (err e) answer db db' h = cc
store_normalized-loaded request_id (ok (owner, status)) answer db db' h =
    stored-loaded request_id owner status answer db db'
      (write_status request_id owner status db.statuses) refl h

-- A status that `upsert_request_status` returns is the one that `load_request_status` then finds, in the
-- form in which the server gives back a JSONB document.
pub load_request_status-upsert :
    (request_id : Text) (payload answer : Fields) (db db' : Database)
    → upsert_request_status request_id payload db ≡ (ok answer, db')
    → load_request_status request_id db' ≡ some (db'.jsonb answer)
unfolding upsert_request_status
load_request_status-upsert request_id payload answer db db' h =
    store_normalized-loaded request_id (normalized_request_status request_id payload) answer db db'
      h

may_write-same : (owner u : ℕ) → may_write owner (some u) ≡ true → owner ≡ u
unfolding may_write
may_write-same owner u h = ground (arith, ==_iff u owner)

guarded {ℓ} : {A : Type ℓ} (c : Bool) (a b : A) → (if c then some a else none) ≡ some b → c ≡ true
guarded true a b h = refl
guarded false a b h = cc

-- The row of the request itself, where it is there and names a user.
write_over-own :
    (row : RequestStatus) (owner u : ℕ) (rows rows' : List RequestStatus) (o : Option RequestStatus)
    → row.user_id ≡ some owner
    → find (is_request row.request_id) rows ≡ o
    → write_over row owner rows o ≡ some rows'
    → user_of o ≡ some u
    → owner_at row.request_id rows' ≡ some u
unfolding owner_at user_of
write_over-own row owner u rows rows' none named e h old = cc
write_over-own row owner u rows rows' (some x) named e h old =
    let same : may_write owner (some u) ≡ true =
      subst (λ n. may_write owner n ≡ true) old
        (unfold write_over in guarded (may_write owner x.user_id) _ _ h) in
    ap user_of (write_over-found row owner rows rows' (some x) e h)
    ∙ named
    ∙ ap some (may_write-same owner u same)

-- The row of another request.
write_over-other :
    (row : RequestStatus) (owner : ℕ) (rows rows' : List RequestStatus) (o : Option RequestStatus)
    (request_id : Text) (x : RequestStatus)
    → row.request_id ≢ request_id
    → write_over row owner rows o ≡ some rows'
    → find (is_request request_id) rows ≡ some x
    → find (is_request request_id) rows' ≡ some x
unfolding write_over
write_over-other row owner rows rows' none request_id x d h e =
    subst (λ l. find (is_request request_id) l ≡ some x) (some_inj h)
      (rw (find-append (is_request request_id) rows row, e) refl)
write_over-other row owner rows rows' (some y) request_id x d h e =
    subst (λ l. find (is_request request_id) l ≡ some x) (if_some (may_write owner y.user_id) h)
      (find-elsewhere (is_request row.request_id) (is_request request_id) row rows
          (λ z. is_request-not row.request_id request_id z d)
          (is_request-not row.request_id request_id row d (is_request-own row))
        ∙ e)

user_of-found :
    (o : Option RequestStatus) (u : ℕ)
    → user_of o ≡ some u
    → (x : RequestStatus) × (o ≡ some x) × (x.user_id ≡ some u)
unfolding user_of
user_of-found none u h = cc
user_of-found (some x) u h = (x, refl, h)

text_cases : (a b : Text) → (a ≡ b) ⊎ (a ≢ b)
text_cases a b = elim (Bool-cases (text_eq a b)) [
  | inl same ↦ inl ((text_eq_iff a b).0 same)
  | inr other ↦ inr (λ e. cc (other, (text_eq_iff a b).1 e))
]

stored-owner :
    (row : RequestStatus) (owner u : ℕ) (status : Fields) (db : Database)
    (o : Option (List RequestStatus)) (request_id : Text)
    → row.user_id ≡ some owner
    → write_over row owner db.statuses (find (is_request row.request_id) db.statuses) ≡ o
    → owner_at request_id db.statuses ≡ some u
    → owner_at request_id (stored status db o).1.statuses ≡ some u
unfolding stored
stored-owner row owner u status db none request_id named e old = old
stored-owner row owner u status db (some rows) request_id named e old =
    elim (text_cases row.request_id request_id) [
      | inl same ↦
          subst (λ (t : Text). owner_at t rows ≡ some u) same
            (write_over-own row owner u db.statuses rows _ named refl e
              (unfold owner_at in subst (λ t. owner_at t db.statuses ≡ some u) (sym same) old))
      | inr other ↦
          let (x, found, user) =
            user_of-found (find (is_request request_id) db.statuses) u (unfold owner_at in old) in
          unfold owner_at in
          ap user_of (
            write_over-other row owner db.statuses rows
              (find (is_request row.request_id) db.statuses) request_id x other e found)
          ∙ unfold user_of in user
    ]

store_normalized-owner :
    (request_id other : Text) (u : ℕ) (r : Result (ℕ × Fields)) (db : Database)
    → owner_at other db.statuses ≡ some u
    → owner_at other (store_normalized request_id r db).1.statuses ≡ some u
unfolding store_normalized write_status status_row
store_normalized-owner request_id other u (err e) db h = h
store_normalized-owner request_id other u (ok (owner, status)) db h =
    stored-owner (status_row request_id owner status) owner u status db
      (write_status request_id owner status db.statuses) other refl refl h

-- Once the row of a request names a user, no upsert of a status changes that, of whatever request
-- and with whatever payload.
pub upsert_request_status-owner :
    (request_id other : Text) (payload : Fields) (u : ℕ) (db : Database)
    → owner_at other db.statuses ≡ some u
    → owner_at other (upsert_request_status request_id payload db).1.statuses ≡ some u
unfolding upsert_request_status
upsert_request_status-owner request_id other payload u db h =
    store_normalized-owner request_id other u (normalized_request_status request_id payload) db h
