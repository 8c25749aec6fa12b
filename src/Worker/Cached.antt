-- ===== src/Worker/Cached.antt =====
-- worker/main.py: the rows of `idempotency_keys` that `_persist_message_with_cursor` reads and writes.
-- The advisory lock orders transactions with the same idempotency key and changes no row.
pub mod Laws
use cloud_portfolio.Prelude.{
  ℕ, suc, ◌+◌, Bool, true, false, ◌&&◌, ◌||◌, not, Option, none, some, List, [], ◌∷◌, ◌++◌, any,
  ltb, ◌==◌, if◌then◌else◌, Text, codes, text_eq, is_empty, starts_with, decimal,
}
use cloud_portfolio.Errors.{
  Error, Result, ok, err, value_error, authorization_error, sequence_gap, integrity_error,
}
use cloud_portfolio.Json.{Value, null, bool, str, obj, Fields, get, put}
use cloud_portfolio.Json.Checks.{get_value}
use cloud_portfolio.Database.Tables.{Message, CachedResponse, Sequence, Database, Moment}
use cloud_portfolio.Database.Find.{find, update_where}
use cloud_portfolio.Database.Tx.{
  Tx, pure, raise, lift, gets, modify, continue, ◌>>=◌, ◌>>◌, raise_if,
}
use cloud_portfolio.Worker.Envelope.{
  Envelope, event_envelope, legacy_body_preview, compatibility_text,
}
use cloud_portfolio.Worker.Job.{Job, job_fields}
use cloud_portfolio.Worker.Orders.{classify_order_event}
use cloud_portfolio.Worker.Response.{message_row_response, validated_idempotency_response}

unfoldable pub idempotency_route : Job → Text
unfolding decimal
idempotency_route job = job.route ++ (codes "|actor:" ++ decimal job.user_id)

-- `if x_idempotency_key`
abbrev pub used_key : Option Text → Option Text
used_key none = none
used_key (some k) = if is_empty k then none else some k

unfoldable pub is_cached : Text → Text → CachedResponse → Bool
unfolding text_eq
is_cached route key row = text_eq row.route route && text_eq row.idem_key key

unfoldable pub find_cached : Text → Text → Database → Option CachedResponse
unfolding find is_cached
find_cached route key db = find (is_cached route key) db.cached

-- INSERT … ON CONFLICT (route, idem_key) DO NOTHING
insert_cached : Text → Text → Fields → Database → Database
unfolding find_cached
insert_cached route key response db = elim (find_cached route key db) [
  | some row ↦ db
  | none ↦ record db {
    cached =
        db.cached ++ record { route = route; idem_key = key; response_json = obj response } ∷ [];
  }
]

-- INSERT … ON CONFLICT (route, idem_key) DO UPDATE
unfoldable pub upsert_cached : Text → Text → Fields → Database → Database
unfolding find_cached update_where is_cached insert_cached
upsert_cached route key response db = elim (find_cached route key db) [
  | none ↦ insert_cached route key response db
  | some row ↦ record db {
    cached =
        update_where (is_cached route key)
          (λ r. record { route = route; idem_key = key; response_json = obj response }) db.cached;
  }
]

abbrev pub hit_key : Text
hit_key = codes "_idempotency_hit"

-- `response["_idempotency_hit"] = True`
mark_hit : Fields → Fields
unfolding put
mark_hit response = put hit_key (bool true) response

usable : Job → Option CachedResponse → Option Fields
unfolding validated_idempotency_response
usable job row = validated_idempotency_response row job.user_id job.room_id

-- A response that the plain route holds is written under the actor's route too.
legacy_hit : Job → Text → Database → Option Fields → Result (Option Fields) × Database
unfolding insert_cached idempotency_route mark_hit
legacy_hit job key db none = (ok none, db)
legacy_hit job key db (some response) =
    (ok (some (mark_hit response)), insert_cached (idempotency_route job) key response db)

scoped_hit : Job → Text → Database → Option Fields → Result (Option Fields) × Database
unfolding legacy_hit usable find_cached mark_hit
scoped_hit job key db (some response) = (ok (some (mark_hit response)), db)
scoped_hit job key db none = legacy_hit job key db (usable job (find_cached job.route key db))

-- A response of an earlier request with the same key: of the actor's route, or else of the plain one.
cached_for : Job → Option Text → Tx (Option Fields)
unfolding scoped_hit usable find_cached idempotency_route
cached_for job none db = (ok none, db)
cached_for job (some key) db =
    scoped_hit job key db (usable job (find_cached (idempotency_route job) key db))

unfoldable pub cached_response : Job → Tx (Option Fields)
unfolding cached_for
cached_response job = cached_for job (used_key job.x_idempotency_key)
