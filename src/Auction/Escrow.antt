-- ===== src/Auction/Escrow.antt =====
-- What an open lot keeps out of the other tables: the leader's cash and the seller's goods.
use spaceempire_back.Prelude.{
  ℕ, ◌+◌, ◌≡◌, refl, ap, true, false, ◌&&◌, Option, none, some, List, arith, ◌==◌, if◌then◌else◌,
  sum_by,
}
use spaceempire_back.Prelude.Int.{ℤ, neg, pos_part, neg_part}
use spaceempire_back.Store.Tables.{Lot, Status, Db}
use spaceempire_back.CargoRepo.Weights.{total_of}
use spaceempire_back.Trade.Deals.{all_stock}
use spaceempire_back.PlayersRepo.Effects.{weigh_cash, Pays}
use spaceempire_back.AuctionRepo.{is_active, find_lot, set_bid, set_lot_status}
use spaceempire_back.AuctionRepo.Effects.{led, with_status, sum-set_bid, sum-set_lot_status}

-- The bid that a leader has paid.
abbrev pub leading_bid : Option ℕ → ℕ → ℕ
leading_bid none price = 0
leading_bid (some _) price = price

abbrev pub escrow_of : Lot → ℕ
escrow_of l = if is_active l.status then leading_bid l.current_bidder_id l.current_price else 0

-- The cash that the open lots hold.
unfoldable pub escrowed : List Lot → ℕ
escrowed = sum_by escrow_of

abbrev pub stock_of : ℕ → Lot → ℕ
stock_of g l = if is_active l.status && l.goods_type == g then l.quantity else 0

-- The goods of one type that the open lots hold.
unfoldable pub listed : ℕ → List Lot → ℕ
listed g = sum_by (stock_of g)

-- All cash: in the wallets and in the open lots.
unfoldable pub all_cash : Db → ℕ
all_cash db = weigh_cash (λ _. 1) db.players + escrowed db.auction_lots

-- All goods of one type: in holds, in the open lots and on the shelves of the stations.
unfoldable pub all_goods : ℕ → Db → ℕ
all_goods g db = total_of g db.cargo + listed g db.auction_lots + all_stock g db.station_goods

pub all_cash_cong :
    (x y : Db) → x.players ≡ y.players → x.auction_lots ≡ y.auction_lots → all_cash x ≡ all_cash y
unfolding all_cash
all_cash_cong x y p q = omega (arith, ap (weigh_cash (λ _. 1)) p, ap escrowed q)

pub all_goods_cong :
    (g : ℕ) (x y : Db)
    → x.cargo ≡ y.cargo
    → x.station_goods ≡ y.station_goods
    → x.auction_lots ≡ y.auction_lots
    → all_goods g x ≡ all_goods g y
unfolding all_goods
all_goods_cong g x y p m q = omega (arith, ap (total_of g) p, ap (all_stock g) m, ap (listed g) q)

pub part_neg : (n : ℕ) → (neg_part (neg n) ≡ n) × (pos_part (neg n) ≡ 0)
part_neg n = (ground arith, ground arith)

pub Pays-all_cash :
    (id : ℕ) (delta : ℤ) (db db' : Db)
    → Pays id delta db db'
    → (all_cash db' + neg_part delta ≡ all_cash db + pos_part delta)
      × ((g : ℕ) → all_goods g db' ≡ all_goods g db)
      × (db'.auction_lots ≡ db.auction_lots)
unfolding all_cash all_goods
Pays-all_cash id delta db db' paid =
    let lots : db'.auction_lots ≡ db.auction_lots = ap (λ (x : Db). x.auction_lots) paid.frame in
    let cargo : db'.cargo ≡ db.cargo = ap (λ (x : Db). x.cargo) paid.frame in
    let market : db'.station_goods ≡ db.station_goods =
      ap (λ (x : Db). x.station_goods) paid.frame in
    (
      omega (arith, paid.sums (λ _. 1), ap escrowed lots),
      λ g. all_goods_cong g db' db cargo market lots,
      lots,
    )

module _ (id : ℕ) (db : Db) (l : Lot) (found : find_lot id db.auction_lots ≡ some l) where
  pub all_cash-set_bid :
      (price bidder : ℕ)
      → is_active l.status ≡ true
      → all_cash (record db { auction_lots = set_bid id price bidder db.auction_lots })
          + leading_bid l.current_bidder_id l.current_price
        ≡ all_cash db + price
  unfolding all_cash escrowed
  all_cash-set_bid price bidder open_ =
      let e : escrow_of l ≡ leading_bid l.current_bidder_id l.current_price = rw open_ refl in
      let f : escrow_of (led l price bidder) ≡ price = rw open_ refl in
      omega (arith, sum-set_bid escrow_of id price bidder db.auction_lots l found, e, f)

  pub all_goods-set_bid :
      (price bidder g : ℕ)
      → all_goods g (record db { auction_lots = set_bid id price bidder db.auction_lots })
        ≡ all_goods g db
  unfolding all_goods listed
  all_goods-set_bid price bidder g =
      omega (arith, sum-set_bid (stock_of g) id price bidder db.auction_lots l found)

  pub all_cash-set_status :
      (s : Status)
      → is_active l.status ≡ true
      → is_active s ≡ false
      → all_cash (record db { auction_lots = set_lot_status id s db.auction_lots })
          + leading_bid l.current_bidder_id l.current_price
        ≡ all_cash db
  unfolding all_cash escrowed
  all_cash-set_status s open_ over =
      let e : escrow_of l ≡ leading_bid l.current_bidder_id l.current_price = rw open_ refl in
      let f : escrow_of (with_status l s) ≡ 0 = rw over refl in
      omega (arith, sum-set_lot_status escrow_of id s db.auction_lots l found, e, f)

  pub all_goods-set_status :
      (s : Status) (g : ℕ)
      → is_active l.status ≡ true
      → is_active s ≡ false
      → all_goods g (record db { auction_lots = set_lot_status id s db.auction_lots })
          + (if l.goods_type == g then l.quantity else 0)
        ≡ all_goods g db
  unfolding all_goods listed
  all_goods-set_status s g open_ over =
      let e : stock_of g l ≡ (if l.goods_type == g then l.quantity else 0) = rw open_ refl in
      let f : stock_of g (with_status l s) ≡ 0 = rw over refl in
      omega (arith, sum-set_lot_status (stock_of g) id s db.auction_lots l found, e, f)
