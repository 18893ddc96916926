-- ===== src/CargoRepo/Reads.antt =====
-- internal/persistence/cargo/repo.go: the statements that only read.
use spaceempire_back.Prelude.{ℕ, ◌≡◌, some}
use spaceempire_back.Domain.{EntityRef, EntityKind, ship, station, trade_station}
use spaceempire_back.Store.Tables.{Db, GoodsType}
use spaceempire_back.Store.Tx.{ok, goods_type_not_found, ship_not_found}
use spaceempire_back.Store.Reads.{ReadOnly, or_raise-ReadOnly}
use spaceempire_back.CargoRepo.{
  goods_type, find_goods_type, capacity, capacity_of_kind, used_space, used_by, ship_dock, ShipDock,
  dock_of, find_ship,
}

pub goods_type-found :
    (g : ℕ) (db : Db) (gt : GoodsType) (db' : Db)
    → goods_type g db ≡ ok gt db'
    → (find_goods_type g db.goods_types ≡ some gt) × (db' ≡ db)
unfolding goods_type
goods_type-found g db gt db' h = or_raise-ReadOnly _ goods_type_not_found db gt db' h

pub goods_type-ReadOnly : (g : ℕ) → ReadOnly (goods_type g)
goods_type-ReadOnly g db gt db' h = (goods_type-found g db gt db' h).1

capacity_of_kind-ReadOnly : (k : EntityKind) (id : ℕ) → ReadOnly (capacity_of_kind k id)
unfolding capacity_of_kind
capacity_of_kind-ReadOnly ship id db c db' h = (or_raise-ReadOnly _ _ db c db' h).1
capacity_of_kind-ReadOnly station id db c db' h = (or_raise-ReadOnly _ _ db c db' h).1
capacity_of_kind-ReadOnly trade_station id db c db' h = (or_raise-ReadOnly _ _ db c db' h).1
capacity_of_kind-ReadOnly _ id db c db' h = cc

pub capacity-ReadOnly : (owner : EntityRef) → ReadOnly (capacity owner)
unfolding capacity
capacity-ReadOnly owner = capacity_of_kind-ReadOnly owner.kind owner.id

pub used_space-ReadOnly : (owner : EntityRef) → ReadOnly (used_space owner)
unfolding used_space
used_space-ReadOnly owner db n db' h = cc

pub used_space-read :
    (owner : EntityRef) (db : Db) (n : ℕ) (db' : Db)
    → used_space owner db ≡ ok n db'
    → n ≡ used_by db.goods_types owner db.cargo
unfolding used_space
used_space-read owner db n db' h = cc

pub ship_dock-found :
    (id : ℕ) (db : Db) (d : ShipDock) (db' : Db)
    → ship_dock id db ≡ ok d db'
    → (dock_of (find_ship id db.ships) ≡ some d) × (db' ≡ db)
unfolding ship_dock
ship_dock-found id db d db' h = or_raise-ReadOnly _ ship_not_found db d db' h

pub ship_dock-ReadOnly : (id : ℕ) → ReadOnly (ship_dock id)
ship_dock-ReadOnly id db d db' h = (ship_dock-found id db d db' h).1
