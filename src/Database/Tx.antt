-- ===== src/Database/Tx.antt =====
-- A transaction: statements that read and write the database, and may raise. The state comes back
-- beside an error too, for the rollback to see what a sequence has used.
use cloud_portfolio.Prelude.{Bool, true, false}
use cloud_portfolio.Errors.{Error, Result, ok, err}
use cloud_portfolio.Database.Tables.{Database}

abbrev pub Tx : Type 0 → Type 0
Tx A = Database → Result A × Database

module _ {A : Type 0} where
  abbrev pub pure : A → Tx A
  pure a db = (ok a, db)

  abbrev pub raise : Error → Tx A
  raise e db = (err e, db)

  abbrev pub lift : Result A → Tx A
  lift r db = (r, db)

  abbrev pub gets : (Database → A) → Tx A
  gets f db = (ok (f db), db)

abbrev pub modify : (Database → Database) → Tx (Unit {0})
modify f db = (ok tt, f db)

abbrev pub continue : {A B : Type 0} → Result A → (A → Tx B) → Tx B
continue (ok a) f db = f a db
continue (err e) f db = (err e, db)

infixl 5 ◌>>=◌ ◌>>◌
abbrev pub ◌>>=◌ : {A B : Type 0} → Tx A → (A → Tx B) → Tx B
◌>>=◌ m f db = let (r, db') = m db in continue r f db'

abbrev pub ◌>>◌ : {B : Type 0} → Tx (Unit {0}) → Tx B → Tx B
m >> k = m >>= λ _. k

abbrev pub raise_if : Bool → Error → Tx (Unit {0})
raise_if true e db = (err e, db)
raise_if false e db = (ok tt, db)

-- `conn.rollback()`: the tables are as they were, and used ids stay used.
abbrev pub rollback : Database → Database → Database
rollback before after = record before { next_message_id = after.next_message_id }
