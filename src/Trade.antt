-- ===== src/Trade.antt =====
-- internal/trade/service.go: what a docked player buys from a station and
-- sells to it. The list of station kinds is the repository's.
pub mod Deals
pub mod Checks
pub mod Buying
pub mod Selling
use spaceempire_back.Prelude.{
  ℕ, ◌+◌, ◌-◌, ◌*◌, ◌/◌, Bool, true, false, not, ◌&&◌, ◌||◌, Option, none, some, List, [], ◌∷◌, ltb,
  leb, ◌==◌, if◌then◌else◌,
}
use spaceempire_back.Prelude.Int.{ℤ, pos, negsuc, pos_part, neg, ltb_ℤ, leb_ℤ, wrap_i64, neg_i64}
use spaceempire_back.Domain.{EntityKind, ship, station, trade_station, EntityRef, kind_code}
use spaceempire_back.Store.Tables.{MarketEntry, Db}
use spaceempire_back.Store.Tx.{
  Tx, Outcome, ok, fail, aborted, Result, pure, raise, raise_if, or_raise, refuse, run_tx, Error,
  non_positive_quantity, invalid_station_kind, forbidden, not_docked, wrong_station,
  station_does_not_sell, station_does_not_buy, insufficient_stock, stock_overflow, no_cargo_space,
  insufficient_quantity, insufficient_cargo, too_little_goods, unsupported_station_kind, ◌>>=◌,
  ◌>>◌,
}
use spaceempire_back.CargoRepo.{unowned_goods}
use spaceempire_back.CargoRepo
use spaceempire_back.PlayersRepo
use spaceempire_back.MarketRepo
use spaceempire_back.MarketRepo.{ShipDock, is_station_kind}
use spaceempire_back.Pricing.{Goods, price_for}

-- What a service answers to a repository's error, where the code tests with `errors.Is`.
abbrev pub relabel {ℓ} : {A : Type ℓ} → (Error → Error) → Tx A → Tx A
relabel f m db = elim (m db) [
  | ok a db' ↦ ok a db'
  | fail e db' ↦ fail (f e) db'
  | aborted ↦ aborted
]

-- The checks of `authorizeDocked` on the ship's row.
unfoldable pub check_docked : ShipDock → ℕ → EntityRef → Tx (Unit {0})
check_docked dock player at =
    if not (dock.player_id == player) then raise forbidden else elim dock.docked [
      | none ↦ raise not_docked
      | some docked ↦
          raise_if (not (kind_code docked.kind == kind_code at.kind) || not (docked.id == at.id))
            wrong_station
    ]

unfoldable pub authorize_docked : ℕ → ℕ → EntityRef → Tx (Unit {0})
authorize_docked player ship_id at = do
  dock ← MarketRepo.load_ship_dock ship_id
  check_docked dock player at

-- Only production factories price from the fill of the shelf.
unfoldable pub unit_price : Option (List Goods) → EntityKind → ℕ → ℕ → ℕ → ℕ → ℕ
unit_price bal station g column stock max_stock = price_for bal g column stock max_stock
unit_price bal _ g column stock max_stock = column

abbrev live_price : Option (List Goods) → EntityKind → MarketEntry → Option ℕ → Option ℕ
live_price bal kind e none = none
live_price bal kind e (some column) =
    some (unit_price bal kind e.goods_type column e.stock e.max_stock)

unfoldable pub with_live_prices :
    Option (List Goods) → EntityKind → List MarketEntry → List MarketEntry
with_live_prices bal kind [] = []
with_live_prices bal kind (e ∷ es) =
    record e {
      sell_price = live_price bal kind e e.sell_price;
      buy_price = live_price bal kind e e.buy_price;
    }
    ∷ with_live_prices bal kind es

abbrev pub invalid_kind : Error → Error
invalid_kind unsupported_station_kind = invalid_station_kind
invalid_kind e = e

abbrev pub no_cargo : Error → Error
no_cargo insufficient_quantity = insufficient_cargo
no_cargo e = e

unfoldable pub market : Option (List Goods) → EntityRef → Tx (List MarketEntry)
market bal owner = do
  entries ← relabel invalid_kind (MarketRepo.list_market owner)
  pure (with_live_prices bal owner.kind entries)

unfoldable pub market_docked : Option (List Goods) → ℕ → ℕ → EntityRef → Tx (List MarketEntry)
market_docked bal player ship_id owner = do
  raise_if (not (is_station_kind owner.kind)) invalid_station_kind
  authorize_docked player ship_id owner
  market bal owner

-- `int(total >> 8)`, credited when it is positive.
unfoldable pub trade_delta : ℤ → ℕ
trade_delta (pos n) = n / 256
trade_delta (negsuc n) = 0

unfoldable pub award_trade_reputation : ℕ → ℤ → Tx (Unit {0})
award_trade_reputation player total =
    if trade_delta total == 0
    then pure tt
    else PlayersRepo.add_reputation player 0 (trade_delta total)

-- `BuyResult` and `SellResult`.
pub record Receipt : Type 0 where
  pub new_cash : ℕ
  pub new_stock : ℕ
  pub unit_price : ℕ
  pub total_amount : ℤ

abbrev pub ship_ref : ℕ → EntityRef
ship_ref ship_id = record { kind = ship; id = ship_id }

-- The writes of `Buy`, once every check has passed.
unfoldable pub settle_buy : ℕ → ℕ → EntityRef → ℕ → ℕ → ℕ → Tx Receipt
settle_buy player ship_id at g q unit = do
  new_cash ← PlayersRepo.adjust_cash player (neg_i64 (wrap_i64 (unit * q)))
  new_stock ← MarketRepo.adjust_stock at g (neg q)
  CargoRepo.add (ship_ref ship_id) g q unowned_goods
  award_trade_reputation player (wrap_i64 (unit * q))
  pure (record {
    new_cash = new_cash;
    new_stock = new_stock;
    unit_price = unit;
    total_amount = wrap_i64 (unit * q);
  })

unfoldable pub buy_in : Option (List Goods) → ℕ → ℕ → EntityRef → ℕ → ℕ → Tx Receipt
buy_in bal player ship_id at g q = do
  authorize_docked player ship_id at
  entry ← relabel invalid_kind (MarketRepo.get_market_entry at g)
  column ← or_raise entry.sell_price station_does_not_sell
  raise_if (ltb entry.stock q) insufficient_stock
  gt ← CargoRepo.goods_type g
  capacity ← CargoRepo.capacity (ship_ref ship_id)
  used ← CargoRepo.used_space (ship_ref ship_id)
  raise_if (ltb capacity (used + q * gt.space)) no_cargo_space
  settle_buy player ship_id at g q (unit_price bal at.kind g column entry.stock entry.max_stock)

unfoldable pub buy : Option (List Goods) → ℕ → ℕ → EntityRef → ℕ → ℤ → Db → Result Receipt × Db
buy bal player ship_id at g qty db =
    if leb_ℤ qty (pos 0)
    then refuse non_positive_quantity db
    else if not (is_station_kind at.kind)
    then refuse invalid_station_kind db
    else run_tx (buy_in bal player ship_id at g (pos_part qty)) db

-- The writes of `Sell`.
unfoldable pub settle_sell : ℕ → ℕ → EntityRef → ℕ → ℕ → ℕ → Tx Receipt
settle_sell player ship_id at g q unit = do
  relabel no_cargo (CargoRepo.subtract (ship_ref ship_id) g q unowned_goods)
  new_stock ← MarketRepo.adjust_stock at g (pos q)
  new_cash ← PlayersRepo.adjust_cash player (wrap_i64 (unit * q))
  award_trade_reputation player (wrap_i64 (unit * q))
  pure (record {
    new_cash = new_cash;
    new_stock = new_stock;
    unit_price = unit;
    total_amount = wrap_i64 (unit * q);
  })

-- `entry.Stock+qty > entry.MaxStock` on int64.
unfoldable pub sell_in : Option (List Goods) → ℕ → ℕ → EntityRef → ℕ → ℕ → Tx Receipt
sell_in bal player ship_id at g q = do
  authorize_docked player ship_id at
  entry ← relabel invalid_kind (MarketRepo.get_market_entry at g)
  column ← or_raise entry.buy_price station_does_not_buy
  raise_if (ltb_ℤ (pos entry.max_stock) (wrap_i64 (entry.stock + q))) stock_overflow
  settle_sell player ship_id at g q (unit_price bal at.kind g column entry.stock entry.max_stock)

unfoldable pub sell : Option (List Goods) → ℕ → ℕ → EntityRef → ℕ → ℤ → Db → Result Receipt × Db
sell bal player ship_id at g qty db =
    if leb_ℤ qty (pos 0)
    then refuse non_positive_quantity db
    else if not (is_station_kind at.kind)
    then refuse invalid_station_kind db
    else run_tx (sell_in bal player ship_id at g (pos_part qty)) db
