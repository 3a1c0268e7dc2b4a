-- ===== src/Store/Tx.antt =====
-- internal/store/resources.go, Tx and WithTx: a transaction reads and writes the database, and an
-- error undoes all of it. SQLite is taken to complete each statement and commit that it accepts;
-- faults of the disk and cancelled contexts are outside the model.
pub mod Kept
use nephos.Base.{Option, none, some, Result, ok, err}
use nephos.Errors.{Error, no_rows}
use nephos.Store.Tables.{Db}

abbrev pub Tx : Type 0 → Type 0
Tx A = Db → Result Error (A × Db)

module _ {A : Type 0} where
  abbrev pub pure : A → Tx A
  pure a db = ok (a, db)

  abbrev pub fail : Error → Tx A
  fail e db = err e

  abbrev pub reading : Result Error A → Tx A
  reading (ok a) db = ok (a, db)
  reading (err e) db = err e

  abbrev pub gets : (Db → A) → Tx A
  gets f db = ok (f db, db)

  -- SELECT … :one
  abbrev pub one_row : Option A → Tx A
  one_row none db = err no_rows
  one_row (some a) db = ok (a, db)

  -- a handler for the error of one statement, which has left the database as it was
  abbrev pub on_error : Tx A → (Error → Error) → Tx A
  on_error m f db = elim (m db) [ ok r ↦ ok r | err e ↦ err (f e) ]

abbrev pub missing_as : Error → Error → Error
missing_as e no_rows = e
missing_as e other = other

module _ {A : Type 0} where
  abbrev pub absent_result : Db → Error → Result Error (A × Db) → Result Error (Unit {0} × Db)
  absent_result db e (ok r) = err e
  absent_result db e (err no_rows) = ok (tt, db)
  absent_result db e (err other) = err other

  -- `if _, err := m; err == nil { return e } else if !errors.Is(err, sql.ErrNoRows) { return err }`
  abbrev pub absent : Tx A → Error → Tx (Unit {0})
  absent m e db = absent_result db e (m db)

  -- `if errors.Is(err, sql.ErrNoRows) { return e }; if err != nil { return err }`
  abbrev pub found_or : Tx A → Error → Tx A
  found_or m e = on_error m (missing_as e)

module _ {A B : Type 0} where
  abbrev pub bind_result : Result Error (A × Db) → (A → Tx B) → Result Error (B × Db)
  bind_result (ok (a, db)) f = f a db
  bind_result (err e) f = err e

module _ {A B : Type 0} where
  infixl 5 ◌>>=◌
  abbrev pub ◌>>=◌ : Tx A → (A → Tx B) → Tx B
  ◌>>=◌ m f db = bind_result (m db) f

module _ {B : Type 0} where
  infixl 5 ◌>>◌
  abbrev pub ◌>>◌ : Tx (Unit {0}) → Tx B → Tx B
  m >> k = m >>= λ _. k

module _ {A : Type 0} where
  abbrev pub settle : Db → Result Error (A × Db) → Result Error A × Db
  settle before (ok (a, after)) = (ok a, after)
  settle before (err e) = (err e, before)

  -- WithTx commits what the function leaves, or rolls back
  unfoldable pub with_tx : Tx A → Db → Result Error A × Db
  with_tx m db = settle db (m db)
