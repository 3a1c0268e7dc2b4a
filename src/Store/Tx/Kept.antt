-- ===== src/Store/Tx/Kept.antt =====
-- Invariants of transactions: what holds of the database before holds of what is committed.
use nephos.Base.{
  ◌≡◌, refl, Bool, true, false, Option, none, some, arith, if◌then◌else◌, Result, ok, err,
}
use mathlib.Core.Path.{subst}
use nephos.Errors.{Error, no_rows}
use nephos.Store.Tables.{Db}
use nephos.Store.Tx.{
  absent_result, Tx, reading, one_row, on_error, absent, bind_result, with_tx, settle, ◌>>=◌,
}

-- `P` of the database that a result carries
abbrev pub Kept : {A : Type 0} → (Db → Type 0) → Result Error (A × Db) → Type 0
Kept P (ok (a, db)) = P db
Kept P (err e) = Unit

-- the result leaves the database as it was
abbrev pub Unchanged : {A : Type 0} → Db → Result Error (A × Db) → Type 0
Unchanged before (ok (a, db)) = db ≡ before
Unchanged before (err e) = Unit

module _ {A : Type 0} (P : Db → Type 0) where
  pub Kept-if :
      (b : Bool) (m n : Result Error (A × Db))
      → (b ≡ true → Kept P m)
      → (b ≡ false → Kept P n)
      → Kept P (if b then m else n)
  Kept-if true m n f g = f refl
  Kept-if false m n f g = g refl

  pub Kept-with_tx : (m : Tx A) (db : Db) → P db → Kept P (m db) → P (with_tx m db).1
  unfolding with_tx
  Kept-with_tx m db h k = go (m db) k
    where
      go : (r : Result Error (A × Db)) → Kept P r → P (settle db r).1
      go (ok (a, db')) k = k
      go (err e) k = h

  pub Kept-on_error :
      (m : Tx A) (f : Error → Error) (db : Db) → Kept P (m db) → Kept P (on_error m f db)
  Kept-on_error m f db k = go (m db) k
    where
      go :
          (r : Result Error (A × Db))
          → Kept P r
          → Kept P (elim r as (λ _. Result Error (A × Db)) [ ok s ↦ ok s | err e ↦ err (f e) ])
      go (ok s) k = k
      go (err e) k = k

module _ {A B : Type 0} (P : Db → Type 0) where
  -- The rest of a block, from what the first step has returned.
  pub Kept-bind :
      (m : Tx A) (f : A → Tx B) (db : Db)
      → ((a : A) (db' : Db) → m db ≡ ok (a, db') → Kept P (f a db'))
      → Kept P ((m >>= f) db)
  Kept-bind m f db k = go (m db) refl
    where
      go : (r : Result Error (A × Db)) → m db ≡ r → Kept P (bind_result r f)
      go (ok (a, db')) e = k a db' e
      go (err e) _ = tt

module _ {A : Type 0} where
  pub Unchanged-ok :
      (m : Tx A) (db : Db) {a : A} {db' : Db} → Unchanged db (m db) → m db ≡ ok (a, db') → db' ≡ db
  Unchanged-ok m db {a} {db'} u e = subst (Unchanged db) e u

  pub reading_lem : (r : Result Error A) (db : Db) → Unchanged db (reading r db)
  reading_lem (ok a) db = refl
  reading_lem (err e) db = tt

  pub one_row_lem : (o : Option A) (db : Db) → Unchanged db (one_row o db)
  one_row_lem none db = tt
  one_row_lem (some a) db = refl

  pub reading-ok :
      (r : Result Error A) (db : Db) {a : A} {db' : Db}
      → reading r db ≡ ok (a, db')
      → (r ≡ ok a) × (db' ≡ db)
  reading-ok (ok b) db h = (ground arith, ground arith)
  reading-ok (err e) db h = absurd (ground arith)

  pub one_row-ok :
      (o : Option A) (db : Db) {a : A} {db' : Db}
      → one_row o db ≡ ok (a, db')
      → (o ≡ some a) × (db' ≡ db)
  one_row-ok (some b) db h = (ground arith, ground arith)
  one_row-ok none db h = absurd (ground arith)

  pub on_error-ok :
      (m : Tx A) (f : Error → Error) (db : Db) {r : A × Db} → on_error m f db ≡ ok r → m db ≡ ok r
  on_error-ok m f db h = ground arith

  pub absent_lem : (m : Tx A) (e : Error) (db : Db) → Unchanged db (absent m e db)
  absent_lem m e db = go (m db)
    where
      go : (r : Result Error (A × Db)) → Unchanged db (absent_result db e r)
      go (ok r) = tt
      go (err no_rows) = refl
      go (err _) = tt

module _ {A B : Type 0} where
  pub bind-ok :
      (m : Tx A) (f : A → Tx B) (db : Db) {b : B} {db' : Db}
      → (m >>= f) db ≡ ok (b, db')
      → (a : A) × (db1 : Db) × (m db ≡ ok (a, db1)) × (f a db1 ≡ ok (b, db'))
  bind-ok m f db {b} {db'} h = go (m db) refl h
    where
      go :
          (r : Result Error (A × Db))
          → m db ≡ r
          → bind_result r f ≡ ok (b, db')
          → (a : A) × (db1 : Db) × (m db ≡ ok (a, db1)) × (f a db1 ≡ ok (b, db'))
      go (ok (a, db1)) e h = (a, db1, e, h)
      go (err e) _ h = absurd (ground arith)
