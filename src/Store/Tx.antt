-- ===== src/Store/Tx.antt =====
-- Transactions: `TxManager.Do` (internal/pkg/database/tx_manager.go), and what runs inside one.
use spaceempire_back.Prelude.{
  ◌≡◌, ◌≢◌, refl, if◌then◌else◌, Bool, true, false, Option, none, some, arith,
}
use spaceempire_back.Store.Tables.{Db}

-- The sentinel errors of the repositories and of the services. A service that answers a
-- repository's error by its own error of the same meaning and name keeps the constructor.
-- `internal` is any other error.
pub data Error : Type 0 where
  non_positive_quantity same_owner invalid_transfer no_space : Error
  goods_type_not_found owner_not_found unsupported_owner_kind : Error
  insufficient_quantity ship_not_found ship_forbidden not_docked wrong_station forbidden : Error
  player_not_found insufficient_cash : Error
  market_entry_not_found unsupported_station_kind insufficient_stock stock_overflow : Error
  invalid_station_kind station_does_not_sell station_does_not_buy : Error
  no_cargo_space insufficient_cargo too_little_goods : Error
  lot_not_found lot_not_active : Error
  invalid_input not_owner already_insured insufficient_funds station_owned : Error
  invalid_quantity invalid_start_price invalid_duration seller_bid bid_too_low : Error
  internal : Error

-- How a step of a transaction ends. `fail` is an error in Go: the transaction can go on, from the
-- state reached. `aborted` is a statement that Postgres refused: every later statement of the
-- transaction is refused too, and so is its commit.
pub data Outcome {ℓ} (A : Type ℓ) : Type ℓ where
  ok : A → Db → Outcome A
  fail : Error → Db → Outcome A
  aborted : Outcome A

abbrev pub Tx {ℓ} : Type ℓ → Type ℓ
Tx A = Db → Outcome A

abbrev pub and_then {ℓ κ} : {A : Type ℓ} {B : Type κ} → Outcome A → (A → Tx B) → Outcome B
and_then (ok a db) f = f a db
and_then (fail e db) f = fail e db
and_then aborted f = aborted

infixl 5 ◌>>=◌ ◌>>◌
abbrev pub ◌>>=◌ {ℓ κ} : {A : Type ℓ} {B : Type κ} → Tx A → (A → Tx B) → Tx B
◌>>=◌ m f db = and_then (m db) f

abbrev pub ◌>>◌ {ℓ} : {B : Type ℓ} → Tx (Unit {0}) → Tx B → Tx B
m >> k = m >>= λ _. k

abbrev pub pure {ℓ} : {A : Type ℓ} → A → Tx A
pure a db = ok a db

abbrev pub raise {ℓ} : {A : Type ℓ} → Error → Tx A
raise e db = fail e db

abbrev pub raise_if : Bool → Error → Tx (Unit {0})
raise_if true e db = fail e db
raise_if false e db = ok tt db

-- A value that a row gave, or the error for no row.
abbrev pub or_raise {ℓ} : {A : Type ℓ} → Option A → Error → Tx A
or_raise none e db = fail e db
or_raise (some a) e db = ok a db

-- The answer of a transaction to its caller, and the database after it.
pub data Result {ℓ} (A : Type ℓ) : Type ℓ where
  done : A → Result A
  err : Error → Result A

-- An error rolls the transaction back; so does a refused statement, whose commit fails.
abbrev pub finish {ℓ} : {A : Type ℓ} → Db → Outcome A → Result A × Db
finish db (ok a db') = (done a, db')
finish db (fail e _) = (err e, db)
finish db aborted = (err internal, db)

unfoldable pub run_tx {ℓ} : {A : Type ℓ} → Tx A → Db → Result A × Db
run_tx m db = finish db (m db)

-- A transaction whose commit fails.
abbrev pub uncommitted {ℓ} : {A : Type ℓ} → Db → Outcome A → Result A × Db
uncommitted db (ok a db') = (err internal, db)
uncommitted db (fail e db') = (err e, db)
uncommitted db aborted = (err internal, db)

-- The Boolean says whether a commit would succeed.
unfoldable pub run_tx_commit {ℓ} : {A : Type ℓ} → Bool → Tx A → Db → Result A × Db
run_tx_commit commits m db = if commits then run_tx m db else uncommitted db (m db)

-- A call outside any transaction that is refused before it opens one.
abbrev pub refuse {ℓ} : {A : Type ℓ} → Error → Db → Result A × Db
refuse e db = (err e, db)

-- A bind that succeeds has two steps that succeed.
pub and_then-eq-ok {ℓ κ} :
    {A : Type ℓ} {B : Type κ} (o : Outcome A) (f : A → Tx B) {b : B} {db'' : Db}
    → and_then o f ≡ ok b db''
    → (a : A) × (db' : Db) × (o ≡ ok a db') × (f a db' ≡ ok b db'')
and_then-eq-ok (ok a db') f h = (a, db', refl, h)
and_then-eq-ok (fail e db') f h = cc
and_then-eq-ok aborted f h = cc

finish-done {ℓ} :
    {A : Type ℓ} (db : Db) (o : Outcome A) {a : A} {db' : Db}
    → finish db o ≡ (done a, db')
    → o ≡ ok a db'
finish-done db (ok b db') h = cc
finish-done db (fail e db') h = ground arith
finish-done db aborted h = ground arith

finish-err {ℓ} :
    {A : Type ℓ} (db : Db) (o : Outcome A) {e : Error} {db' : Db}
    → finish db o ≡ (err e, db')
    → db' ≡ db
finish-err db (ok b db') h = ground arith
finish-err db (fail e db') h = ground arith
finish-err db aborted h = ground arith

module _ {ℓ} {A : Type ℓ} (m : Tx A) (db : Db) where
  -- Only a success changes the database.
  pub run_tx-done : {a : A} {db' : Db} → run_tx m db ≡ (done a, db') → m db ≡ ok a db'
  unfolding run_tx
  run_tx-done h = finish-done db (m db) h

  pub run_tx-err : {e : Error} {db' : Db} → run_tx m db ≡ (err e, db') → db' ≡ db
  unfolding run_tx
  run_tx-err h = finish-err db (m db) h

  pub run_tx_of_ok : {a : A} {db' : Db} → m db ≡ ok a db' → run_tx m db ≡ (done a, db')
  unfolding run_tx
  run_tx_of_ok h = rw h

uncommitted-done {ℓ} :
    {A : Type ℓ} (db : Db) (o : Outcome A) {a : A} {db' : Db} → uncommitted db o ≢ (done a, db')
uncommitted-done db (ok b db') h = ground arith
uncommitted-done db (fail e db') h = ground arith
uncommitted-done db aborted h = ground arith

uncommitted-err {ℓ} :
    {A : Type ℓ} (db : Db) (o : Outcome A) {e : Error} {db' : Db}
    → uncommitted db o ≡ (err e, db')
    → db' ≡ db
uncommitted-err db (ok b db') h = ground arith
uncommitted-err db (fail e db') h = ground arith
uncommitted-err db aborted h = ground arith

module _ {ℓ} {A : Type ℓ} (m : Tx A) (db : Db) where
  pub run_tx_commit-done :
      (commits : Bool) {a : A} {db' : Db}
      → run_tx_commit commits m db ≡ (done a, db')
      → (commits ≡ true) × (m db ≡ ok a db')
  unfolding run_tx_commit
  run_tx_commit-done true h = (refl, run_tx-done m db h)
  run_tx_commit-done false h = absurd (uncommitted-done db (m db) h)

  pub run_tx_commit-err :
      (commits : Bool) {e : Error} {db' : Db} → run_tx_commit commits m db ≡ (err e, db') → db' ≡ db
  unfolding run_tx_commit
  run_tx_commit-err true h = run_tx-err m db h
  run_tx_commit-err false h = uncommitted-err db (m db) h
