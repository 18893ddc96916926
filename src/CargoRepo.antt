-- ===== src/CargoRepo.antt =====
-- internal/persistence/cargo/repo.go: the statements over `cargo`, `goods_types`, the `cargobay`
-- columns and the dock of a ship. Each function is one method of `Repository`, its SQL included.
-- A number is a BIGINT that a CHECK keeps from being negative; a sum past 2 ^ 63 - 1 makes
-- Postgres refuse the statement.
pub mod Weights
pub mod Effects
pub mod Reads
use spaceempire_back.Prelude.{
  ℕ, ◌+◌, ◌-◌, ◌*◌, Bool, true, false, not, ◌&&◌, ◌||◌, Option, none, some, List, [], ◌∷◌, ltb, leb,
  ◌==◌, if◌then◌else◌, find_row, select, sum_by,
}
use spaceempire_back.Prelude.Int.{max_i64}
use spaceempire_back.Domain.{EntityKind, ship, station, trade_station, EntityRef, ref_eq}
use spaceempire_back.Store.Tables.{
  GoodsType, Ship, Station, TradeStation, CargoKey, CargoRow, Db, key_eq,
}
use spaceempire_back.Store.Tx.{
  Tx, ok, fail, aborted, or_raise, raise, goods_type_not_found, owner_not_found,
  unsupported_owner_kind, insufficient_quantity, ship_not_found, internal,
}

-- The depositor of goods that belong to no player.
abbrev pub unowned_goods : ℕ
unowned_goods = 0

unfoldable pub find_goods_type : ℕ → List GoodsType → Option GoodsType
find_goods_type id = find_row (λ g. g.id == id)

unfoldable pub goods_type : ℕ → Tx GoodsType
goods_type id db = or_raise (find_goods_type id db.goods_types) goods_type_not_found db

pub record ShipDock : Type 0 where
  pub player_id : ℕ
  pub docked : Option EntityRef

unfoldable pub find_ship : ℕ → List Ship → Option Ship
find_ship id = find_row (λ s. s.id == id)

abbrev pub dock_of : Option Ship → Option ShipDock
dock_of none = none
dock_of (some s) = some (record { player_id = s.player_id; docked = s.docked })

unfoldable pub ship_dock : ℕ → Tx ShipDock
ship_dock id db = or_raise (dock_of (find_ship id db.ships)) ship_not_found db

-- `GROUP BY goods_type_id ORDER BY goods_type_id` of the rows that have been summed so far.
abbrev pub add_to_group : ℕ → ℕ → List (ℕ × ℕ) → List (ℕ × ℕ)
add_to_group g q [] = (g, q) ∷ []
add_to_group g q ((h, n) ∷ gs) =
    if g == h
    then (h, n + q) ∷ gs
    else if ltb g h
    then (g, q) ∷ (h, n) ∷ gs
    else (h, n) ∷ add_to_group g q gs

unfoldable pub group_by_goods : List CargoRow → List (ℕ × ℕ)
group_by_goods [] = []
group_by_goods (r ∷ rs) = add_to_group r.key.goods_type r.quantity (group_by_goods rs)

-- A sum is NUMERIC in Postgres: one that no int64 holds fails in `Scan`.
abbrev all_scan : List (ℕ × ℕ) → Bool
all_scan [] = true
all_scan ((_, n) ∷ gs) = leb n max_i64 && all_scan gs

-- The rows that a viewer may see: the unowned pool and the viewer's own deposits.
abbrev pub is_visible : EntityRef → ℕ → CargoRow → Bool
is_visible owner viewer r =
    ref_eq r.key.owner owner && (r.key.goods_owner == unowned_goods || r.key.goods_owner == viewer)

unfoldable pub list_by_owner : EntityRef → ℕ → Tx (List (ℕ × ℕ))
unfolding group_by_goods
list_by_owner owner viewer db =
    let items = group_by_goods (select (is_visible owner viewer) db.cargo) in
    if all_scan items then ok items db else fail internal db

abbrev quantity_of : Option CargoRow → ℕ
quantity_of none = 0
quantity_of (some r) = r.quantity

unfoldable pub stack : CargoKey → List CargoRow → ℕ
stack k rows = quantity_of (find_row (λ r. key_eq r.key k) rows)

abbrev pub cargo_key : EntityRef → ℕ → ℕ → CargoKey
cargo_key owner g depositor = record { owner = owner; goods_type = g; goods_owner = depositor }

unfoldable pub quantity : EntityRef → ℕ → ℕ → Tx ℕ
quantity owner g depositor db = ok (stack (cargo_key owner g depositor) db.cargo) db

-- The EXISTS of `hasOthersGoodsSQL`.
unfoldable pub any_others : EntityRef → ℕ → ℕ → List CargoRow → Bool
any_others owner g viewer [] = false
any_others owner g viewer (r ∷ rs) =
    (ref_eq r.key.owner owner
      && (r.key.goods_type == g
          && (not (r.key.goods_owner == 0)
              && (not (r.key.goods_owner == viewer) && ltb 0 r.quantity))))
    || any_others owner g viewer rs

unfoldable pub has_others_goods : EntityRef → ℕ → ℕ → Tx Bool
unfolding any_others
has_others_goods owner g viewer db = ok (any_others owner g viewer db.cargo) db

abbrev space_or_zero : Option GoodsType → ℕ
space_or_zero none = 0
space_or_zero (some g) = g.space

-- The space of one unit, as the join with `goods_types` gives it: a row that does not join
-- counts for nothing.
unfoldable pub space_of : List GoodsType → ℕ → ℕ
space_of types g = space_or_zero (find_goods_type g types)

unfoldable pub used_by : List GoodsType → EntityRef → List CargoRow → ℕ
unfolding space_of
used_by types owner rows =
    sum_by (λ r. r.quantity * space_of types r.key.goods_type)
      (select (λ r. ref_eq r.key.owner owner) rows)

unfoldable pub used_space : EntityRef → Tx ℕ
used_space owner db = ok (used_by db.goods_types owner db.cargo) db

abbrev ship_bay : Option Ship → Option ℕ
ship_bay none = none
ship_bay (some s) = some s.cargobay

abbrev station_bay : Option Station → Option ℕ
station_bay none = none
station_bay (some s) = some s.cargobay

abbrev trade_station_bay : Option TradeStation → Option ℕ
trade_station_bay none = none
trade_station_bay (some s) = some s.cargobay

-- The switch on the kind in `Capacity`.
unfoldable pub capacity_of_kind : EntityKind → ℕ → Tx ℕ
capacity_of_kind ship id db = or_raise (ship_bay (find_ship id db.ships)) owner_not_found db
capacity_of_kind station id db =
    or_raise (station_bay (find_row (λ s. s.id == id) db.stations)) owner_not_found db
capacity_of_kind trade_station id db =
    or_raise (trade_station_bay (find_row (λ s. s.id == id) db.trade_stations)) owner_not_found db
capacity_of_kind _ id db = raise unsupported_owner_kind db

unfoldable pub capacity : EntityRef → Tx ℕ
unfolding capacity_of_kind
capacity owner = capacity_of_kind owner.kind owner.id

abbrev cons_row {ℓ} : {A : Type ℓ} → A → Option (List A) → Option (List A)
cons_row r none = none
cons_row r (some rs) = some (r ∷ rs)

-- `INSERT ... ON CONFLICT DO UPDATE`; `known` says that the goods type is in `goods_types`, which
-- the foreign key asks of a new row. `none` is a refused statement.
unfoldable pub add_stack : Bool → CargoKey → ℕ → List CargoRow → Option (List CargoRow)
add_stack known k q [] =
    if known && leb q max_i64 then some (record { key = k; quantity = q } ∷ []) else none
add_stack known k q (r ∷ rs) =
    if key_eq r.key k
    then (if leb (r.quantity + q) max_i64
        then some (record r { quantity = r.quantity + q } ∷ rs)
        else none)
    else cons_row r (add_stack known k q rs)

abbrev pub is_known : Option GoodsType → Bool
is_known none = false
is_known (some _) = true

unfoldable pub add : EntityRef → ℕ → ℕ → ℕ → Tx (Unit {0})
unfolding add_stack
add owner g q depositor db =
    elim (add_stack (is_known (find_goods_type g db.goods_types)) (cargo_key owner g depositor) q
      db.cargo) [ none ↦ aborted | some rows ↦ ok tt (record db { cargo = rows }) ]

abbrev cons_taken : CargoRow → Option (ℕ × List CargoRow) → Option (ℕ × List CargoRow)
cons_taken r none = none
cons_taken r (some (n, rs)) = some (n, r ∷ rs)

-- `UPDATE ... AND quantity >= $4 RETURNING quantity`; `none` is no row.
unfoldable pub take_stack : CargoKey → ℕ → List CargoRow → Option (ℕ × List CargoRow)
take_stack k q [] = none
take_stack k q (r ∷ rs) =
    if key_eq r.key k
    then (if leb q r.quantity
        then some (r.quantity - q, record r { quantity = r.quantity - q } ∷ rs)
        else none)
    else cons_taken r (take_stack k q rs)

unfoldable pub delete_empty : CargoKey → List CargoRow → List CargoRow
delete_empty k = select (λ r. not (key_eq r.key k && r.quantity == 0))

unfoldable pub subtract : EntityRef → ℕ → ℕ → ℕ → Tx (Unit {0})
unfolding take_stack delete_empty
subtract owner g q depositor db =
    let k = cargo_key owner g depositor in
    elim (take_stack k q db.cargo) [
      | none ↦ fail insufficient_quantity db
      | some (n, rows) ↦ ok tt (record db { cargo = if n == 0 then delete_empty k rows else rows })
    ]
