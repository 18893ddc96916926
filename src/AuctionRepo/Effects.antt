-- ===== src/AuctionRepo/Effects.antt =====
-- A sum over the lots under the statements on `auction_lots`.
use spaceempire_back.Prelude.{
  ℕ, ◌+◌, ◌≡◌, refl, ap, true, some, List, [], ◌∷◌, ◌==◌, arith, sum_by, Bool-cases, inl, inr,
  Option, none, subst,
}
use spaceempire_back.Store.Tables.{Lot, Status, Db}
use spaceempire_back.Store.Tx.{ok}
use spaceempire_back.AuctionRepo.{
  is_active, find_lot, lock_lot, if_active, set_bid, set_lot_status, update_bid, updated_bid,
  updated_status, set_status,
}

-- Only the lots differ.
abbrev pub LotsOnly : Db → Db → Type 0
LotsOnly db db' = db' ≡ record db { auction_lots = db'.auction_lots }

-- The lot with a new leader, and with another status.
abbrev pub led : Lot → ℕ → ℕ → Lot
led l price bidder = record l { current_price = price; current_bidder_id = some bidder }

abbrev pub with_status : Lot → Status → Lot
with_status l s = record l { status = s }

module _ (v : Lot → ℕ) (id : ℕ) where
  pub sum-set_bid :
      (price bidder : ℕ) (ls : List Lot) (l : Lot)
      → find_lot id ls ≡ some l
      → sum_by v (set_bid id price bidder ls) + v l ≡ sum_by v ls + v (led l price bidder)
  unfolding find_lot set_bid
  sum-set_bid price bidder [] l h = cc
  sum-set_bid price bidder (m ∷ ms) l h = elim (Bool-cases (m.id == id)) [
    | inl here ↦ let same : m ≡ l = ground arith in rw (here, same) (omega arith)
    | inr later ↦
        let e : find_lot id ms ≡ some l = ground arith in
        rw later (omega (arith, sum-set_bid price bidder ms l e))
  ]

  pub sum-set_lot_status :
      (s : Status) (ls : List Lot) (l : Lot)
      → find_lot id ls ≡ some l
      → sum_by v (set_lot_status id s ls) + v l ≡ sum_by v ls + v (with_status l s)
  unfolding find_lot set_lot_status
  sum-set_lot_status s [] l h = cc
  sum-set_lot_status s (m ∷ ms) l h = elim (Bool-cases (m.id == id)) [
    | inl here ↦ let same : m ≡ l = ground arith in rw (here, same) (omega arith)
    | inr later ↦
        let e : find_lot id ms ≡ some l = ground arith in
        rw later (omega (arith, sum-set_lot_status s ms l e))
  ]

pub find-set_bid :
    (id price bidder : ℕ) (ls : List Lot) (l : Lot)
    → find_lot id ls ≡ some l
    → find_lot id (set_bid id price bidder ls) ≡ some (led l price bidder)
unfolding find_lot set_bid
find-set_bid id price bidder [] l h = cc
find-set_bid id price bidder (m ∷ ms) l h = elim (Bool-cases (m.id == id)) [
  | inl here ↦ let same : m ≡ l = ground arith in rw (here, here, same) refl
  | inr later ↦
      let e : find_lot id ms ≡ some l = ground arith in
      rw (later, later) (find-set_bid id price bidder ms l e)
]

pub find-set_lot_status :
    (id : ℕ) (s : Status) (ls : List Lot) (l : Lot)
    → find_lot id ls ≡ some l
    → find_lot id (set_lot_status id s ls) ≡ some (with_status l s)
unfolding find_lot set_lot_status
find-set_lot_status id s [] l h = cc
find-set_lot_status id s (m ∷ ms) l h = elim (Bool-cases (m.id == id)) [
  | inl here ↦ let same : m ≡ l = ground arith in rw (here, here, same) refl
  | inr later ↦
      let e : find_lot id ms ≡ some l = ground arith in
      rw (later, later) (find-set_lot_status id s ms l e)
]

if_active-ok :
    (o : Option Lot) (db : Db) {l : Lot} {db' : Db}
    → if_active o db ≡ ok l db'
    → (o ≡ some l) × (is_active l.status ≡ true) × (db' ≡ db)
if_active-ok none db h = cc
if_active-ok (some m) db {l = l} h = elim (Bool-cases (is_active m.status)) [
  | inl live ↦
      let same : m ≡ l = ground arith in
      (ap some same, subst (λ (x : Lot). is_active x.status ≡ true) same live, ground arith)
  | inr over ↦ ground arith
]

updated_bid-ok :
    (o : Option Lot) (id price bidder : ℕ) (db : Db) {u : Unit {0}} {db' : Db}
    → updated_bid o id price bidder db ≡ ok u db'
    → db' ≡ record db { auction_lots = set_bid id price bidder db.auction_lots }
updated_bid-ok none id price bidder db h = cc
updated_bid-ok (some l) id price bidder db h = ground arith

updated_status-ok :
    (o : Option Lot) (id : ℕ) (s : Status) (db : Db) {u : Unit {0}} {db' : Db}
    → updated_status o id s db ≡ ok u db'
    → db' ≡ record db { auction_lots = set_lot_status id s db.auction_lots }
updated_status-ok none id s db h = cc
updated_status-ok (some l) id s db h = cc

-- What `LockLot` returns is the row, and it is active.
pub lock_lot-ok :
    (id : ℕ) (db : Db) (l : Lot) (db' : Db)
    → lock_lot id db ≡ ok l db'
    → (find_lot id db.auction_lots ≡ some l) × (is_active l.status ≡ true) × (db' ≡ db)
unfolding lock_lot
lock_lot-ok id db l db' h = if_active-ok (find_lot id db.auction_lots) db h

pub update_bid-ok :
    (id price bidder : ℕ) (db : Db) {u : Unit {0}} {db' : Db}
    → update_bid id price bidder db ≡ ok u db'
    → db' ≡ record db { auction_lots = set_bid id price bidder db.auction_lots }
unfolding update_bid
update_bid-ok id price bidder db h =
    updated_bid-ok (find_lot id db.auction_lots) id price bidder db h

pub set_status-ok :
    (id : ℕ) (s : Status) (db : Db) {u : Unit {0}} {db' : Db}
    → set_status id s db ≡ ok u db'
    → db' ≡ record db { auction_lots = set_lot_status id s db.auction_lots }
unfolding set_status
set_status-ok id s db h = updated_status-ok (find_lot id db.auction_lots) id s db h
