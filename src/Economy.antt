-- ===== src/Economy.antt =====
-- The operations that players and the closer run, in any order and with any answer:
-- internal/cargo/service.go, internal/trade/service.go and internal/economy/auction. A hack, which
-- destroys goods, is not among them.
pub mod Atomic
pub mod Totals
use spaceempire_back.Prelude.{ℕ, ◌≡◌, Option, List}
use spaceempire_back.Prelude.Int.{ℤ}
use spaceempire_back.Domain.{EntityRef}
use spaceempire_back.Store.Tables.{Lot, Db}
use spaceempire_back.Store.Tx.{Result}
use spaceempire_back.Pricing.{Goods}
use spaceempire_back.Cargo.{move_by_player}
use spaceempire_back.Trade.{Receipt, buy, sell}
use spaceempire_back.Auction.{CreateParams, BidResult, create, bid, close}
use spaceempire_back.Auction.Closer.{tick}

-- One operation, whatever it answers.
pub data Step : Db → Db → Type 0 where
  transfer :
      (actor : ℕ) (from to : EntityRef) (g : ℕ) (qty : ℤ) {db db' : Db} {r : Result (Unit {0})}
      → move_by_player actor from to g qty db ≡ (r, db')
      → Step db db'
  purchase :
      (bal : Option (List Goods)) (player ship_id : ℕ) (at : EntityRef) (g : ℕ) (qty : ℤ)
      {db db' : Db} {r : Result Receipt}
      → buy bal player ship_id at g qty db ≡ (r, db')
      → Step db db'
  sale :
      (bal : Option (List Goods)) (player ship_id : ℕ) (at : EntityRef) (g : ℕ) (qty : ℤ)
      {db db' : Db} {r : Result Receipt}
      → sell bal player ship_id at g qty db ≡ (r, db')
      → Step db db'
  listing :
      (now stamp : ℕ) (p : CreateParams) {db db' : Db} {r : Result Lot}
      → create now stamp p db ≡ (r, db')
      → Step db db'
  offer :
      (now bidder ship_id lot_id : ℕ) (amount : ℤ) {db db' : Db} {r : Result BidResult}
      → bid now bidder ship_id lot_id amount db ≡ (r, db')
      → Step db db'
  closing : (now : ℕ) {db : Db} → Step db (tick now db)

-- Any number of operations, one after the other.
pub data Steps : Db → Db → Type 0 where
  nothing : {db : Db} → Steps db db
  then : {a b c : Db} → Steps a b → Step b c → Steps a c
