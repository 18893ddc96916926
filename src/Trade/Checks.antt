-- ===== src/Trade/Checks.antt =====
-- What a deal that succeeds has passed: the dock, the market row, the shelf and the hold.
use spaceempire_back.Prelude.{
  ℕ, ◌+◌, ◌*◌, ◌≤◌, ◌≡◌, refl, Option, some, none, List, arith, ltb, ltb→le, Bool-cases,
  Option-cases, inl, inr,
}
use spaceempire_back.Prelude.Int.{pos, ltb_ℤ, wrap_i64}
use spaceempire_back.Domain.{EntityRef, kind_code-injective}
use spaceempire_back.Store.Tables.{Ship, GoodsType, MarketEntry, Db}
use spaceempire_back.Store.Tx.{
  ok, fail, invalid_station_kind, or_raise, ship_not_found, and_then-eq-ok, no_cargo_space,
  insufficient_stock, station_does_not_sell, station_does_not_buy, stock_overflow,
}
use spaceempire_back.Store.Reads.{read_then, raise_if_then, or_raise-ReadOnly}
use spaceempire_back.CargoRepo
use spaceempire_back.CargoRepo.{find_ship, used_by, find_goods_type}
use spaceempire_back.CargoRepo.Reads.{
  goods_type-ReadOnly, goods_type-found, capacity-ReadOnly, used_space-ReadOnly, used_space-read,
}
use spaceempire_back.Cargo.Gate.{IsDocked}
use spaceempire_back.MarketRepo
use spaceempire_back.MarketRepo.{ShipDock, dock_of, find_entry, is_station_kind}
use spaceempire_back.Pricing.{Goods}
use spaceempire_back.Trade.{
  Receipt, check_docked, authorize_docked, relabel, invalid_kind, ship_ref, unit_price, buy_in,
  sell_in, settle_buy, settle_sell,
}

check_docked-ok :
    (dock : ShipDock) (player : ℕ) (at : EntityRef) (db : Db) {u : Unit {0}} {db' : Db}
    → check_docked dock player at db ≡ ok u db'
    → (dock.player_id ≡ player) × (dock.docked ≡ some at) × (db' ≡ db)
unfolding check_docked
check_docked-ok dock player at db h = elim (Option-cases dock.docked) [
  | inl free ↦ ground arith
  | inr (r, e) ↦ ground (arith, kind_code-injective r.kind at.kind)
]

dock_of-some :
    (o : Option Ship) (d : ShipDock)
    → dock_of o ≡ some d
    → (s : Ship) × (o ≡ some s) × (s.player_id ≡ d.player_id) × (s.docked ≡ d.docked)
dock_of-some none d h = cc
dock_of-some (some s) d h = (s, refl, ground arith, ground arith)

authorize_docked-IsDocked :
    (player ship_id : ℕ) (at : EntityRef) (db : Db) (u : Unit {0}) (db' : Db)
    → authorize_docked player ship_id at db ≡ ok u db'
    → IsDocked player ship_id at db × (db' ≡ db)
unfolding authorize_docked MarketRepo.load_ship_dock
authorize_docked-IsDocked player ship_id at db u db' h =
    let (dock, mid, read, checked) = and_then-eq-ok (MarketRepo.load_ship_dock ship_id db) _ h in
    let (found, same) =
      or_raise-ReadOnly (dock_of (find_ship ship_id db.ships)) ship_not_found db dock mid read in
    let (owned, docked, same') = check_docked-ok dock player at mid checked in
    let (s, is_s, p, d) = dock_of-some (find_ship ship_id db.ships) dock found in
    (record { vessel = s; found = is_s; owned = cc; docked = cc }, cc)

get_market_entry-found :
    (at : EntityRef) (g : ℕ) (db : Db) (e : MarketEntry) (db' : Db)
    → relabel invalid_kind (MarketRepo.get_market_entry at g) db ≡ ok e db'
    → (find_entry at g db.station_goods ≡ some e) × (db' ≡ db)
unfolding MarketRepo.get_market_entry
get_market_entry-found at g db e db' h = elim (Bool-cases (is_station_kind at.kind)) [
  | inl is_ ↦ elim (Option-cases (find_entry at g db.station_goods)) [
    | inl missing ↦ ground arith
    | inr (x, found) ↦ ground arith
  ]
  | inr not_ ↦
      let refused : relabel invalid_kind (MarketRepo.get_market_entry at g) db
          ≡ fail invalid_station_kind db =
        rw (not_, relabel) in
      cc
]

-- What `Buy` checked before its first write.
pub record CanBuy (player ship_id : ℕ) (at : EntityRef) (g q : ℕ) (db : Db) : Type 0 where
  pub docked : IsDocked player ship_id at db
  pub entry : MarketEntry
  pub offered : find_entry at g db.station_goods ≡ some entry
  pub column : ℕ
  pub sold_here : entry.sell_price ≡ some column
  pub in_stock : q ≤ entry.stock
  pub goods : GoodsType
  pub known : find_goods_type g db.goods_types ≡ some goods
  pub room : ℕ
  pub capacity : CargoRepo.capacity (ship_ref ship_id) db ≡ ok room db
  pub fits : used_by db.goods_types (ship_ref ship_id) db.cargo + q * goods.space ≤ room

module _ (bal : Option (List Goods)) (player ship_id : ℕ) (at : EntityRef) (g q : ℕ) (db : Db)
    {r : Receipt} {db' : Db} where
  pub buy_in-CanBuy :
      buy_in bal player ship_id at g q db ≡ ok r db'
      → (c : CanBuy player ship_id at g q db) × (settle_buy player ship_id at g q
            (unit_price bal at.kind g c.column c.entry.stock c.entry.max_stock)
            db
          ≡ ok r db')
  unfolding buy_in
  buy_in-CanBuy h =
      let (u, docked, h₁) =
        read_then (authorize_docked player ship_id at) _ db
          (λ x y z e. (authorize_docked-IsDocked player ship_id at x y z e).1) h in
      let (entry, offered, h₂) =
        read_then (relabel invalid_kind (MarketRepo.get_market_entry at g)) _ db
          (λ x y z e. (get_market_entry-found at g x y z e).1) h₁ in
      let (column, sold, h₃) =
        read_then (or_raise entry.sell_price station_does_not_sell) _ db
          (λ x y z e. (or_raise-ReadOnly entry.sell_price station_does_not_sell x y z e).1) h₂ in
      let (enough, h₄) = raise_if_then (ltb entry.stock q) insufficient_stock _ db h₃ in
      let (gt, known, h₅) = read_then (CargoRepo.goods_type g) _ db (goods_type-ReadOnly g) h₄ in
      let (room, capacity, h₆) =
        read_then (CargoRepo.capacity (ship_ref ship_id)) _ db (capacity-ReadOnly _) h₅ in
      let (used, used_read, h₇) =
        read_then (CargoRepo.used_space (ship_ref ship_id)) _ db (used_space-ReadOnly _) h₆ in
      let (fit, h₈) = raise_if_then (ltb room (used + q * gt.space)) no_cargo_space _ db h₇ in
      (
        record {
          docked = (authorize_docked-IsDocked player ship_id at db u db docked).0;
          entry = entry;
          offered = (get_market_entry-found at g db entry db offered).0;
          column = column;
          sold_here =
              (or_raise-ReadOnly entry.sell_price station_does_not_sell db column db sold).0;
          in_stock = ltb→le entry.stock q enough;
          goods = gt;
          known = (goods_type-found g db gt db known).0;
          room = room;
          capacity = capacity;
          fits =
              omega
                (arith, ltb→le room _ fit, used_space-read (ship_ref ship_id) db used db used_read);
        },
        h₈,
      )

-- What `Sell` checked before its first write.
pub record CanSell (player ship_id : ℕ) (at : EntityRef) (g q : ℕ) (db : Db) : Type 0 where
  pub docked : IsDocked player ship_id at db
  pub entry : MarketEntry
  pub offered : find_entry at g db.station_goods ≡ some entry
  pub column : ℕ
  pub bought_here : entry.buy_price ≡ some column

module _ (bal : Option (List Goods)) (player ship_id : ℕ) (at : EntityRef) (g q : ℕ) (db : Db)
    {r : Receipt} {db' : Db} where
  pub sell_in-CanSell :
      sell_in bal player ship_id at g q db ≡ ok r db'
      → (c : CanSell player ship_id at g q db) × (settle_sell player ship_id at g q
            (unit_price bal at.kind g c.column c.entry.stock c.entry.max_stock)
            db
          ≡ ok r db')
  unfolding sell_in
  sell_in-CanSell h =
      let (u, docked, h₁) =
        read_then (authorize_docked player ship_id at) _ db
          (λ x y z e. (authorize_docked-IsDocked player ship_id at x y z e).1) h in
      let (entry, offered, h₂) =
        read_then (relabel invalid_kind (MarketRepo.get_market_entry at g)) _ db
          (λ x y z e. (get_market_entry-found at g x y z e).1) h₁ in
      let (column, sold, h₃) =
        read_then (or_raise entry.buy_price station_does_not_buy) _ db
          (λ x y z e. (or_raise-ReadOnly entry.buy_price station_does_not_buy x y z e).1) h₂ in
      let (enough, h₄) =
        raise_if_then (ltb_ℤ (pos entry.max_stock) (wrap_i64 (entry.stock + q))) stock_overflow _ db
          h₃ in
      (
        record {
          docked = (authorize_docked-IsDocked player ship_id at db u db docked).0;
          entry = entry;
          offered = (get_market_entry-found at g db entry db offered).0;
          column = column;
          bought_here =
              (or_raise-ReadOnly entry.buy_price station_does_not_buy db column db sold).0;
        },
        h₄,
      )
