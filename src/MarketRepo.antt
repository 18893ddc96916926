-- ===== src/MarketRepo.antt =====
-- internal/persistence/trade/repo.go: the rows of `station_goods`, and the dock of a ship.
pub mod Effects
use spaceempire_back.Prelude.{
  ℕ, ◌+◌, ◌-◌, Bool, true, false, ◌&&◌, Option, none, some, List, [], ◌∷◌, ltb, leb, ◌==◌,
  if◌then◌else◌, find_row, select,
}
use spaceempire_back.Prelude.Int.{ℤ, pos_part, neg_part, max_i64}
use spaceempire_back.Domain.{
  EntityKind, station, trade_station, pirbase, EntityRef, ref_eq, kind_code,
}
use spaceempire_back.Store.Tables.{Ship, MarketEntry, Db}
use spaceempire_back.Store.Tx.{
  Tx, ok, fail, aborted, or_raise, raise, ship_not_found, market_entry_not_found,
  unsupported_station_kind, insufficient_stock, stock_overflow, internal,
}
use spaceempire_back.CargoRepo.{find_ship}
use spaceempire_back.Store.Update.{Update, no_row, refused, updated, cons_update}

unfoldable pub is_station_kind : EntityKind → Bool
is_station_kind station = true
is_station_kind trade_station = true
is_station_kind pirbase = true
is_station_kind _ = false

pub record ShipDock : Type 0 where
  pub player_id : ℕ
  pub sector_id : ℕ
  pub docked : Option EntityRef

abbrev pub dock_of : Option Ship → Option ShipDock
dock_of none = none
dock_of (some s) =
    some (record { player_id = s.player_id; sector_id = s.sector_id; docked = s.docked })

unfoldable pub load_ship_dock : ℕ → Tx ShipDock
load_ship_dock id db = or_raise (dock_of (find_ship id db.ships)) ship_not_found db

-- `ORDER BY goods_type_id`.
abbrev pub insert_by_goods : MarketEntry → List MarketEntry → List MarketEntry
insert_by_goods e [] = e ∷ []
insert_by_goods e (f ∷ fs) =
    if leb e.goods_type f.goods_type then e ∷ f ∷ fs else f ∷ insert_by_goods e fs

unfoldable pub order_by_goods : List MarketEntry → List MarketEntry
order_by_goods [] = []
order_by_goods (e ∷ es) = insert_by_goods e (order_by_goods es)

unfoldable pub list_market : EntityRef → Tx (List MarketEntry)
list_market owner db =
    if is_station_kind owner.kind
    then ok (order_by_goods (select (λ e. ref_eq e.owner owner) db.station_goods)) db
    else fail unsupported_station_kind db

abbrev max_into : ℕ → ℕ → List (ℕ × ℕ) → List (ℕ × ℕ)
max_into g m [] = (g, m) ∷ []
max_into g m ((h, n) ∷ rest) =
    if g == h then (h, if ltb n m then m else n) ∷ rest else (h, n) ∷ max_into g m rest

-- `SELECT goods_type_id, max(max_stock) ... WHERE owner_kind = 2 GROUP BY goods_type_id`.
unfoldable pub ref_maxes : List MarketEntry → List (ℕ × ℕ)
ref_maxes [] = []
ref_maxes (e ∷ es) =
    let rest = ref_maxes es in
    if kind_code e.owner.kind == 2 then max_into e.goods_type e.max_stock rest else rest

unfoldable pub production_ref_maxes : Tx (List (ℕ × ℕ))
production_ref_maxes db = ok (ref_maxes db.station_goods) db

abbrev pub is_entry : EntityRef → ℕ → MarketEntry → Bool
is_entry owner g e = ref_eq e.owner owner && e.goods_type == g

unfoldable pub find_entry : EntityRef → ℕ → List MarketEntry → Option MarketEntry
find_entry owner g = find_row (is_entry owner g)

unfoldable pub get_market_entry : EntityRef → ℕ → Tx MarketEntry
get_market_entry owner g db =
    if is_station_kind owner.kind
    then or_raise (find_entry owner g db.station_goods) market_entry_not_found db
    else fail unsupported_station_kind db

-- `SET stock = stock + $4 WHERE ... AND stock + $4 >= 0 AND stock + $4 <= max_stock`.
unfoldable pub update_stock : EntityRef → ℕ → ℤ → List MarketEntry → Update MarketEntry
update_stock owner g delta [] = no_row
update_stock owner g delta (e ∷ es) =
    let stock = e.stock + pos_part delta - neg_part delta in
    if is_entry owner g e
    then (if ltb (e.stock + pos_part delta) (neg_part delta)
        then no_row
        else (if ltb max_i64 stock
            then refused
            else (if leb stock e.max_stock
                then updated stock (record e { stock = stock } ∷ es)
                else no_row)))
    else cons_update e (update_stock owner g delta es)

-- Which bound the UPDATE would have broken.
abbrev why_not : Option MarketEntry → ℤ → Tx ℕ
why_not none delta db = fail market_entry_not_found db
why_not (some e) delta db =
    fail
      (if ltb (e.stock + pos_part delta) (neg_part delta)
        then insufficient_stock
        else if ltb (e.max_stock + neg_part delta) (e.stock + pos_part delta)
        then stock_overflow
        else internal)
      db

unfoldable pub shift_stock : EntityRef → ℕ → ℤ → Tx ℕ
shift_stock owner g delta db = elim (update_stock owner g delta db.station_goods) [
  | no_row ↦ why_not (find_entry owner g db.station_goods) delta db
  | refused ↦ aborted
  | updated stock rows ↦ ok stock (record db { station_goods = rows })
]

unfoldable pub adjust_stock : EntityRef → ℕ → ℤ → Tx ℕ
adjust_stock owner g delta =
    if is_station_kind owner.kind then shift_stock owner g delta else raise unsupported_station_kind
