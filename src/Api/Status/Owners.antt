-- ===== src/Api/Status/Owners.antt =====
-- Who is told the status of a request.
use cloud_portfolio.Prelude.{
  ℕ, ◌≡◌, ◌≢◌, refl, ap, sym, ◌∙◌, arith, ◌==◌, ==_iff, Option, none, some, Text, codes,
  if◌then◌else◌, if-result, ◌⊎◌, inl, inr,
}
use cloud_portfolio.Errors.{Result, ok, err, >>=-ok}
use cloud_portfolio.Json.{null, Fields, get}
use cloud_portfolio.Json.Checks.{get_value, get_or, number}
use cloud_portfolio.Database.Tables.{Database}
use cloud_portfolio.Database.Session.{Fault, healthy, fails, unacknowledged, in_transaction}
use cloud_portfolio.Store.Status.{load_request_status, upsert_request_status, owner_field, owner_of}
use cloud_portfolio.Store.Status.Owner.{load_request_status-upsert}
use cloud_portfolio.Store.Status.Normal.{IsBigint, IsOwned, upsert_request_status-IsOwned}
use cloud_portfolio.Api.Answer.{Answer, done, failed, http, uncaught, is_unavailable}
use cloud_portfolio.Api.Status.{
  request_status_actor_id, owned_answer, loaded_answer, status_answer, get_event_request_status,
  externalize_request_status, access_denied,
}

owner_field-found :
    (message k : Text) (owner : ℕ) (status : Fields)
    → get k status ≡ some (number owner)
    → IsBigint owner
    → owner_field message (get_value k status) ≡ ok (some owner)
unfolding get_value get_or owner_field
owner_field-found message k owner status e valid =
    ap (λ o. owner_field message (elim o [ none ↦ null | some v ↦ v ])) e ∙ rw valid refl

request_status_actor_id-IsOwned :
    (owner : ℕ) (status : Fields) → IsOwned owner status → request_status_actor_id status ≡ ok owner
unfolding request_status_actor_id
request_status_actor_id-IsOwned owner status h =
    >>=-ok
      (owner_field (codes "Invalid request status actor_id") (get_value (codes "actor_id") status))
      _ (owner_field-found _ (codes "actor_id") owner status h.actor_id h.bigint)
      (>>=-ok
        (owner_field (codes "Invalid request status user_id") (get_value (codes "user_id") status))
        _ (owner_field-found _ (codes "user_id") owner status h.user_id h.bigint)
        (unfold owner_of in rw ((==_iff owner owner).1 refl) refl))

-- Let the server give back integers under the keys of a JSONB document as they were stored. The status that
-- an upsert has returned names one user, by a valid id. Where the database then answers,
-- `get_event_request_status` shows that user the external form of the status as the server gives it back,
-- and answers every other user with 403.
pub get_event_request_status-upsert :
    (request_id : Text) (payload status : Fields) (db db' : Database) (user_id : ℕ)
    → ((d : Fields) (k : Text) (n : ℕ)
        → get k d ≡ some (number n)
        → get k (db'.jsonb d) ≡ some (number n))
    → upsert_request_status request_id payload db ≡ (ok status, db')
    → (owner : ℕ) × IsOwned owner status
      × (get_event_request_status healthy user_id request_id db' ≡ (
          if owner == user_id
          then done (externalize_request_status (db'.jsonb status))
          else failed (http 403 (codes "Request access denied"))))
unfolding get_event_request_status in_transaction access_denied
get_event_request_status-upsert request_id payload status db db' user_id keeps h =
    let (owner, owned) = upsert_request_status-IsOwned request_id payload status db db' h in
    let read : IsOwned owner (db'.jsonb status) = record {
      actor_id = keeps status (codes "actor_id") owner owned.actor_id;
      user_id = keeps status (codes "user_id") owner owned.user_id;
      bigint = owned.bigint;
    } in
    (
      owner,
      owned,
      unfold status_answer in
          ap (loaded_answer user_id) (load_request_status-upsert request_id payload status db db' h)
          ∙ unfold loaded_answer in
            ap (owned_answer user_id (db'.jsonb status))
              (request_status_actor_id-IsOwned owner (db'.jsonb status) read)
            ∙ unfold owned_answer in refl,
    )

abbrev pub IsShown : ℕ → Option Fields → Answer Fields → Type 0
IsShown user_id none a = a ≡ failed (http 404 (codes "Request not found"))
IsShown user_id (some status) a =
    ((request_status_actor_id status ≡ ok user_id) × (a ≡ done (externalize_request_status status)))
    ⊎ ((request_status_actor_id status ≢ ok user_id)
        × (a ≡ failed (http 403 (codes "Request access denied"))))

owned_answer-IsShown :
    (user_id : ℕ) (status : Fields) (r : Result ℕ)
    → request_status_actor_id status ≡ r
    → IsShown user_id (some status) (owned_answer user_id status r)
unfolding owned_answer access_denied
owned_answer-IsShown user_id status (err e) h = inr (λ k. cc (h, k), refl)
owned_answer-IsShown user_id status (ok owner) h =
    if-result (IsShown user_id (some status)) (owner == user_id) _ _
      (λ same. inl (h ∙ ap ok ((==_iff owner user_id).0 same), refl))
      (λ other. inr (λ k. ground (arith, ==_iff owner user_id, other, ok_inj (sym h ∙ k)), refl))
  where
    ok_inj : {a b : ℕ} → ok a ≡ ok b → a ≡ b
    ok_inj e = cc

loaded_answer-IsShown :
    (user_id : ℕ) (o : Option Fields) → IsShown user_id o (loaded_answer user_id o)
unfolding loaded_answer
loaded_answer-IsShown user_id none = refl
loaded_answer-IsShown user_id (some status) =
    owned_answer-IsShown user_id status (request_status_actor_id status) refl

-- How `get_event_request_status` answers, by how the database fares.
abbrev pub IsAnswered : Fault → ℕ → Text → Database → Answer Fields → Type 0
IsAnswered healthy user_id request_id db a = IsShown user_id (load_request_status request_id db) a
IsAnswered (fails e n) user_id request_id db a = a ≡ (
    if is_unavailable e
    then failed (http 503 (codes "Request status unavailable"))
    else failed (uncaught e))
IsAnswered (unacknowledged e) user_id request_id db a = a ≡ (
    if is_unavailable e
    then failed (http 503 (codes "Request status unavailable"))
    else failed (uncaught e))

-- Where the database answers, a request without a status is answered with 404; a status is shown, in
-- its external form, exactly to the user that it names as its owner, and 403 is the answer to anyone
-- else and for a status whose owner is missing, invalid or contradictory. Where the database fails, the
-- answer is 503 for the three errors of the connection, and other exceptions are passed on.
pub get_event_request_status-IsAnswered :
    (fault : Fault) (user_id : ℕ) (request_id : Text) (db : Database)
    → IsAnswered fault user_id request_id db (get_event_request_status fault user_id request_id db)
unfolding get_event_request_status in_transaction status_answer
get_event_request_status-IsAnswered healthy user_id request_id db =
    loaded_answer-IsShown user_id (load_request_status request_id db)
get_event_request_status-IsAnswered (fails e n) user_id request_id db = refl
get_event_request_status-IsAnswered (unacknowledged e) user_id request_id db = refl
