-- ===== src/Economy/Totals.antt =====
-- The goods of the whole world under the operations of the economy.
use spaceempire_back.Prelude.{ℕ, ◌≡◌, refl, ap, ◌∙◌, arith, List, Option}
use spaceempire_back.Prelude.Int.{ℤ}
use spaceempire_back.Domain.{EntityRef}
use spaceempire_back.Store.Tables.{Lot, Db}
use spaceempire_back.Store.Tx.{Result, done, err}
use spaceempire_back.Pricing.{Goods}
use spaceempire_back.Cargo.{move_by_player}
use spaceempire_back.Cargo.Moves.{total_of-move, move_exact}
use spaceempire_back.Cargo.Gate.{move_by_player-authorized}
use spaceempire_back.Trade.{Receipt, buy, sell}
use spaceempire_back.Trade.Deals.{all_stock}
use spaceempire_back.Trade.Buying.{buy-conserves, buy-DealOnly}
use spaceempire_back.Trade.Selling.{sell-conserves, sell-DealOnly}
use spaceempire_back.Auction.{CreateParams, BidResult, create, bid}
use spaceempire_back.Auction.Escrow.{all_goods, listed}
use spaceempire_back.Auction.Bids.{bid-conserves}
use spaceempire_back.Auction.Listing.{create-conserves}
use spaceempire_back.Auction.Closer.{tick-conserves}
use spaceempire_back.Economy.{
  Step, transfer, purchase, sale, listing, offer, closing, Steps, nothing, then,
}
use spaceempire_back.Economy.Atomic.{move_by_player-err, buy-err, sell-err, create-err, bid-err}

unchanged : (g : ℕ) (db db' : Db) → db' ≡ db → all_goods g db' ≡ all_goods g db
unchanged g db db' same = ap (all_goods g) same

module _ (g : ℕ) (db : Db) where
  all_goods-move_by_player :
      (actor : ℕ) (from to : EntityRef) (h : ℕ) (qty : ℤ) (r : Result (Unit {0})) (db' : Db)
      → move_by_player actor from to h qty db ≡ (r, db')
      → all_goods g db' ≡ all_goods g db
  unfolding all_goods
  all_goods-move_by_player actor from to h qty (done u) db' e =
      let (s, at, ends, d, moved) = move_by_player-authorized actor from to h qty db e in
      let (_, _, _, _, frame) = move_exact actor from to h qty db moved in
      omega (
        arith,
        total_of-move actor from to h qty db moved g,
        ap (λ (x : Db). listed g x.auction_lots) frame,
        ap (λ (x : Db). all_stock g x.station_goods) frame,
      )
  all_goods-move_by_player actor from to h qty (err f) db' e =
      unchanged g db db' (move_by_player-err db actor from to h qty e)

  all_goods-buy :
      (bal : Option (List Goods)) (player ship_id : ℕ) (at : EntityRef) (h : ℕ) (qty : ℤ)
      (r : Result Receipt) (db' : Db)
      → buy bal player ship_id at h qty db ≡ (r, db')
      → all_goods g db' ≡ all_goods g db
  unfolding all_goods
  all_goods-buy bal player ship_id at h qty (done u) db' e = omega (
    arith,
    buy-conserves bal player ship_id at h qty db e g,
    ap (λ (x : Db). listed g x.auction_lots) (buy-DealOnly bal player ship_id at h qty db e),
  )
  all_goods-buy bal player ship_id at h qty (err f) db' e =
      unchanged g db db' (buy-err db bal player ship_id at h qty e)

  all_goods-sell :
      (bal : Option (List Goods)) (player ship_id : ℕ) (at : EntityRef) (h : ℕ) (qty : ℤ)
      (r : Result Receipt) (db' : Db)
      → sell bal player ship_id at h qty db ≡ (r, db')
      → all_goods g db' ≡ all_goods g db
  unfolding all_goods
  all_goods-sell bal player ship_id at h qty (done u) db' e = omega (
    arith,
    sell-conserves bal player ship_id at h qty db e g,
    ap (λ (x : Db). listed g x.auction_lots) (sell-DealOnly bal player ship_id at h qty db e),
  )
  all_goods-sell bal player ship_id at h qty (err f) db' e =
      unchanged g db db' (sell-err db bal player ship_id at h qty e)

  all_goods-create :
      (now stamp : ℕ) (p : CreateParams) (r : Result Lot) (db' : Db)
      → create now stamp p db ≡ (r, db')
      → all_goods g db' ≡ all_goods g db
  all_goods-create now stamp p (done l) db' e = (create-conserves now stamp p db e).1 g
  all_goods-create now stamp p (err f) db' e = unchanged g db db' (create-err db now stamp p e)

  all_goods-bid :
      (now bidder ship_id lot_id : ℕ) (amount : ℤ) (r : Result BidResult) (db' : Db)
      → bid now bidder ship_id lot_id amount db ≡ (r, db')
      → all_goods g db' ≡ all_goods g db
  all_goods-bid now bidder ship_id lot_id amount (done l) db' e =
      (bid-conserves now bidder ship_id lot_id amount db e).1 g
  all_goods-bid now bidder ship_id lot_id amount (err f) db' e =
      unchanged g db db' (bid-err db now bidder ship_id lot_id amount e)

all_goods-Step : (g : ℕ) {db db' : Db} → Step db db' → all_goods g db' ≡ all_goods g db
all_goods-Step g {db = db} {db' = db'} (transfer actor from to h qty {r = r} e) =
    all_goods-move_by_player g db actor from to h qty r db' e
all_goods-Step g {db = db} {db' = db'} (purchase bal player ship_id at h qty {r = r} e) =
    all_goods-buy g db bal player ship_id at h qty r db' e
all_goods-Step g {db = db} {db' = db'} (sale bal player ship_id at h qty {r = r} e) =
    all_goods-sell g db bal player ship_id at h qty r db' e
all_goods-Step g {db = db} {db' = db'} (listing now stamp p {r = r} e) =
    all_goods-create g db now stamp p r db' e
all_goods-Step g {db = db} {db' = db'} (offer now bidder ship_id lot_id amount {r = r} e) =
    all_goods-bid g db now bidder ship_id lot_id amount r db' e
all_goods-Step g {db = db} (closing now) = (tick-conserves now db).1 g

-- Whatever players and the closer do, in any order and with any answer, there is as much of each
-- goods type in holds, on shelves and in open lots together as there was.
pub all_goods-Steps : (g : ℕ) {db db' : Db} → Steps db db' → all_goods g db' ≡ all_goods g db
all_goods-Steps g nothing = refl
all_goods-Steps g (then before step) = all_goods-Step g step ∙ all_goods-Steps g before
