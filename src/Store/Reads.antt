-- ===== src/Store/Reads.antt =====
-- Steps that only read, and how a successful chain that begins with one goes on.
use spaceempire_back.Prelude.{◌≡◌, refl, Bool, true, false, Option, none, some}
use spaceempire_back.Store.Tables.{Db}
use spaceempire_back.Store.Tx.{Tx, Error, ok, or_raise, raise_if, ◌>>=◌, ◌>>◌, and_then-eq-ok}

-- A step that changes nothing when it succeeds.
abbrev pub ReadOnly {ℓ} : {A : Type ℓ} → Tx A → Type ℓ
ReadOnly {A = A} m = (db : Db) (a : A) (db' : Db) → m db ≡ ok a db' → db' ≡ db

pub read_then {ℓ κ} :
    {A : Type ℓ} {B : Type κ} (m : Tx A) (f : A → Tx B) (db : Db) {b : B} {db'' : Db}
    → ReadOnly m
    → (m >>= f) db ≡ ok b db''
    → (a : A) × (m db ≡ ok a db) × (f a db ≡ ok b db'')
read_then m f db quiet h =
    let (a, db', first, rest) = and_then-eq-ok (m db) f h in
    let same : db' ≡ db = quiet db a db' first in (a, rw same at first, rw same at rest)

pub raise_if_then {ℓ} :
    {B : Type ℓ} (t : Bool) (e : Error) (k : Tx B) (db : Db) {b : B} {db'' : Db}
    → (raise_if t e >> k) db ≡ ok b db''
    → (t ≡ false) × (k db ≡ ok b db'')
raise_if_then true e k db h = cc
raise_if_then false e k db h = (refl, h)

pub or_raise-ReadOnly {ℓ} :
    {A : Type ℓ} (o : Option A) (e : Error) (db : Db) (a : A) (db' : Db)
    → or_raise o e db ≡ ok a db'
    → (o ≡ some a) × (db' ≡ db)
or_raise-ReadOnly none e db a db' h = cc
or_raise-ReadOnly (some x) e db a db' h = (cc, cc)
