-- ===== src/Worker/Cached/Laws.antt =====
-- The idempotency rows leave the tables of the event path alone.
use cloud_portfolio.Prelude.{arith, Option, none, some, Text}
use cloud_portfolio.Json.{Fields}
use cloud_portfolio.Database.Tables.{Database}
use cloud_portfolio.Database.Untouched.{Untouched, Untouched-refl}
use cloud_portfolio.Worker.Job.{Job}
use cloud_portfolio.Worker.Cached.{
  idempotency_route, used_key, find_cached, insert_cached, upsert_cached, usable, legacy_hit,
  scoped_hit, cached_for, cached_response,
}

insert_cached-Untouched :
    (route key : Text) (response : Fields) (db : Database)
    → Untouched db (insert_cached route key response db)
unfolding insert_cached
insert_cached-Untouched route key response db = ground arith

pub upsert_cached-Untouched :
    (route key : Text) (response : Fields) (db : Database)
    → Untouched db (upsert_cached route key response db)
unfolding upsert_cached insert_cached
upsert_cached-Untouched route key response db = ground arith

legacy_hit-Untouched :
    (job : Job) (key : Text) (db : Database) (o : Option Fields)
    → Untouched db (legacy_hit job key db o).1
unfolding legacy_hit
legacy_hit-Untouched job key db none = Untouched-refl db
legacy_hit-Untouched job key db (some r) = insert_cached-Untouched (idempotency_route job) key r db

scoped_hit-Untouched :
    (job : Job) (key : Text) (db : Database) (o : Option Fields)
    → Untouched db (scoped_hit job key db o).1
unfolding scoped_hit
scoped_hit-Untouched job key db (some r) = Untouched-refl db
scoped_hit-Untouched job key db none =
    legacy_hit-Untouched job key db (usable job (find_cached job.route key db))

cached_for-Untouched :
    (job : Job) (o : Option Text) (db : Database) → Untouched db (cached_for job o db).1
unfolding cached_for
cached_for-Untouched job none db = Untouched-refl db
cached_for-Untouched job (some key) db =
    scoped_hit-Untouched job key db (usable job (find_cached (idempotency_route job) key db))

pub cached_response-Untouched :
    (job : Job) (db : Database) → Untouched db (cached_response job db).1
unfolding cached_response
cached_response-Untouched job db = cached_for-Untouched job (used_key job.x_idempotency_key) db
