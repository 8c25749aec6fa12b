-- ===== src/Database/Session.antt =====
-- A transaction against a database that can fail: portfolio/db.py, `get_conn`, with the commit at the
-- end of the block that uses the connection.
use cloud_portfolio.Prelude.{ℕ, ◌+◌, ◌≡◌}
use cloud_portfolio.Errors.{Error, Result, ok, err}
use cloud_portfolio.Database.Tables.{Database}
use cloud_portfolio.Database.Tx.{Tx, rollback}

-- How the database fares in one transaction. `fails e n` raises `e` before the commit is reached,
-- with `n` ids used; `unacknowledged e` commits, and raises `e` because the answer is lost.
pub data Fault : Type 0 where
  healthy : Fault
  fails : Error → ℕ → Fault
  unacknowledged : Error → Fault

module _ {A : Type 0} where
  unfoldable pub finish : Database → Result A × Database → Result A × Database
  finish before (ok a, after) = (ok a, after)
  finish before (err e, after) = (err e, rollback before after)

  unfoldable pub finish_unacknowledged :
      Error → Database → Result A × Database → Result A × Database
  finish_unacknowledged e before (ok a, after) = (err e, after)
  finish_unacknowledged e before (err e', after) = (err e', rollback before after)

  unfoldable pub in_transaction : Fault → Tx A → Database → Result A × Database
  unfolding finish finish_unacknowledged
  in_transaction healthy m db = finish db (m db)
  in_transaction (fails e n) m db = (err e, record db { next_message_id = db.next_message_id + n })
  in_transaction (unacknowledged e) m db = finish_unacknowledged e db (m db)

  finish-ok :
      (db db' : Database) (a : A) (p : Result A × Database)
      → finish db p ≡ (ok a, db')
      → p ≡ (ok a, db')
  unfolding finish
  finish-ok db db' a (ok b, d) h = h
  finish-ok db db' a (err e, d) h = cc

  finish_unacknowledged-ok :
      (e : Error) (db db' : Database) (a : A) (p : Result A × Database)
      → finish_unacknowledged e db p ≡ (ok a, db')
      → ⊥
  unfolding finish_unacknowledged
  finish_unacknowledged-ok e db db' a (ok b, d) h = cc
  finish_unacknowledged-ok e db db' a (err x, d) h = cc

  -- A transaction that returns has committed what its statements did.
  pub in_transaction-ok :
      (fault : Fault) (m : Tx A) (db db' : Database) (a : A)
      → in_transaction fault m db ≡ (ok a, db')
      → m db ≡ (ok a, db')
  unfolding in_transaction
  in_transaction-ok healthy m db db' a h = finish-ok db db' a (m db) h
  in_transaction-ok (fails e n) m db db' a h = cc
  in_transaction-ok (unacknowledged e) m db db' a h =
      absurd (finish_unacknowledged-ok e db db' a (m db) h)
