-- ===== src/Cargo.antt =====
-- internal/cargo/service.go: inventories, the debits and credits that other services make inside
-- their own transactions, and the transfers between two holds. A quantity of a request is an
-- int64 of either sign; past its guard it is a number. Volumes are whole cubic metres.
pub mod Draws
pub mod Transfers
pub mod Moves
pub mod Gate
pub mod Quantities
use spaceempire_back.Prelude.{
  ℕ, ◌+◌, ◌-◌, ◌*◌, ◌/◌, Bool, true, false, not, ◌&&◌, ◌||◌, Option, none, some, List, ltb, leb,
  ◌==◌, if◌then◌else◌,
}
use spaceempire_back.Prelude.Int.{ℤ, pos, pos_part, neg, ltb_ℤ, leb_ℤ, wrap_i64}
use spaceempire_back.Domain.{EntityKind, ship, station, trade_station, pirbase, EntityRef, ref_eq}
use spaceempire_back.Store.Tables.{Db}
use spaceempire_back.Store.Tx.{
  Tx, Result, pure, raise, raise_if, refuse, run_tx, non_positive_quantity, same_owner,
  invalid_transfer, no_space, insufficient_quantity, ship_forbidden, not_docked, wrong_station,
  forbidden, ◌>>=◌, ◌>>◌,
}
use spaceempire_back.CargoRepo.{ShipDock, unowned_goods}
use spaceempire_back.CargoRepo

-- A hold where the depositor of a stack matters.
unfoldable pub is_station_like : EntityKind → Bool
is_station_like station = true
is_station_like trade_station = true
is_station_like pirbase = true
is_station_like _ = false

pub record Inventory : Type 0 where
  pub owner : EntityRef
  pub capacity : ℕ
  pub used : ℕ
  pub items : List (ℕ × ℕ)

unfoldable pub inventory : EntityRef → ℕ → Tx Inventory
inventory owner viewer = do
  capacity ← CargoRepo.capacity owner
  used ← CargoRepo.used_space owner
  items ← CargoRepo.list_by_owner owner viewer
  pure (record { owner = owner; capacity = capacity; used = used; items = items })

unfoldable pub consume_in : EntityRef → ℕ → ℤ → Tx (Unit {0})
consume_in owner g qty = do
  raise_if (leb_ℤ qty (pos 0)) non_positive_quantity
  gt ← CargoRepo.goods_type g
  CargoRepo.subtract owner g (pos_part qty) unowned_goods

unfoldable pub consume : EntityRef → ℕ → ℤ → Db → Result (Unit {0}) × Db
consume owner g qty db =
    if leb_ℤ qty (pos 0)
    then refuse non_positive_quantity db
    else run_tx (consume_in owner g qty) db

-- `int64((capacity - used) / gt.Space)`: the conversion cuts towards zero.
unfoldable pub whole_units : ℕ → ℕ → ℕ → ℤ
whole_units capacity used space =
    if leb used capacity then pos ((capacity - used) / space) else neg ((used - capacity) / space)

-- The final switch of `FitsIn`.
unfoldable pub clamp_fits : ℤ → ℤ → ℤ
clamp_fits fits limit =
    if ltb_ℤ fits (pos 0) then pos 0 else if ltb_ℤ limit fits then limit else fits

unfoldable pub fits_by_space : EntityRef → ℕ → ℤ → Tx ℤ
fits_by_space owner space limit = do
  capacity ← CargoRepo.capacity owner
  used ← CargoRepo.used_space owner
  pure (clamp_fits (whole_units capacity used space) limit)

unfoldable pub fits_in : EntityRef → ℕ → ℤ → Tx ℤ
fits_in owner g limit = do
  gt ← CargoRepo.goods_type g
  if gt.space == 0 then pure limit else fits_by_space owner gt.space limit

unfoldable pub available_in : EntityRef → ℕ → Tx ℕ
available_in owner g = do gt ← CargoRepo.goods_type g; CargoRepo.quantity owner g unowned_goods

unfoldable pub refund_in : EntityRef → ℕ → ℤ → Tx (Unit {0})
refund_in owner g qty = do
  raise_if (leb_ℤ qty (pos 0)) non_positive_quantity
  CargoRepo.add owner g (pos_part qty) unowned_goods

unfoldable pub add_in : EntityRef → ℕ → ℕ → Tx (Unit {0})
add_in owner g q = do
  gt ← CargoRepo.goods_type g
  capacity ← CargoRepo.capacity owner
  used ← CargoRepo.used_space owner
  raise_if (ltb capacity (used + q * gt.space)) no_space
  CargoRepo.add owner g q unowned_goods

unfoldable pub add : EntityRef → ℕ → ℤ → Db → Result (Unit {0}) × Db
add owner g qty db =
    if leb_ℤ qty (pos 0)
    then refuse non_positive_quantity db
    else run_tx (add_in owner g (pos_part qty)) db

-- The second `Subtract` of a split, skipped when the own deposit covers the request.
unfoldable pub take_free : EntityRef → ℕ → ℕ → Tx (Unit {0})
take_free from g q = if ltb 0 q then CargoRepo.subtract from g q unowned_goods else pure tt

unfoldable pub take_own : EntityRef → ℕ → ℕ → ℕ → Tx (Unit {0})
take_own from g q actor = if ltb 0 q then CargoRepo.subtract from g q actor else pure tt

-- `own+free < qty` on int64: why the request cannot be met from what the actor may take.
unfoldable pub short_of : ℕ → EntityRef → ℕ → ℤ → Tx (Unit {0})
short_of actor from g takeable = do
  others ←
      (if leb_ℤ takeable (pos 0) && leb_ℤ (pos 0) takeable
        then CargoRepo.has_others_goods from g actor
        else pure false)
  raise (if others then forbidden else insufficient_quantity)

-- The own deposit first, and the rest from the unowned pool.
unfoldable pub draw_both : ℕ → EntityRef → ℕ → ℕ → ℕ → Tx (Unit {0})
unfolding take_free take_own
draw_both actor from g own_part q =
    take_own from g own_part actor >> take_free from g (q - own_part)

unfoldable pub split_draw : ℕ → EntityRef → ℕ → ℕ → Tx (Unit {0})
split_draw actor from g q = do
  own ← CargoRepo.quantity from g actor
  free ← CargoRepo.quantity from g unowned_goods
  if ltb_ℤ (wrap_i64 (own + free)) (pos q)
      then short_of actor from g (wrap_i64 (own + free))
      else draw_both actor from g (if ltb q own then q else own) q

unfoldable pub subtract_from_source : ℕ → EntityRef → ℕ → ℕ → Tx (Unit {0})
subtract_from_source actor from g q =
    if not (is_station_like from.kind) || actor == unowned_goods
    then CargoRepo.subtract from g q unowned_goods
    else split_draw actor from g q

-- The depositor that a transfer tags the destination's stack with.
unfoldable pub depositor_at : EntityRef → ℕ → ℕ
unfolding is_station_like
depositor_at to actor = if is_station_like to.kind then actor else unowned_goods

unfoldable pub move_in : ℕ → EntityRef → EntityRef → ℕ → ℕ → Tx (Unit {0})
move_in actor from to g q = do
  gt ← CargoRepo.goods_type g
  to_capacity ← CargoRepo.capacity to
  to_used ← CargoRepo.used_space to
  raise_if (ltb to_capacity (to_used + q * gt.space)) no_space
  subtract_from_source actor from g q
  CargoRepo.add to g q (depositor_at to actor)

unfoldable pub move : ℕ → EntityRef → EntityRef → ℕ → ℤ → Db → Result (Unit {0}) × Db
move actor from to g qty db =
    if leb_ℤ qty (pos 0)
    then refuse non_positive_quantity db
    else if ref_eq from to
    then refuse same_owner db
    else run_tx (move_in actor from to g (pos_part qty)) db

-- The holds that a player loads from and unloads into while docked.
unfoldable pub is_transfer_station : EntityKind → Bool
is_transfer_station station = true
is_transfer_station trade_station = true
is_transfer_station _ = false

unfoldable pub is_ship : EntityKind → Bool
is_ship ship = true
is_ship _ = false

-- The ship and the station of a transfer; `none` is `ErrInvalidTransfer`.
unfoldable pub transfer_ends : EntityRef → EntityRef → Option (ℕ × EntityRef)
unfolding is_transfer_station is_ship
transfer_ends from to =
    if is_ship from.kind && is_transfer_station to.kind
    then some (from.id, to)
    else if is_transfer_station from.kind && is_ship to.kind
    then some (to.id, from)
    else none

-- The checks of `authorizeDocked` on the ship's row.
unfoldable pub check_docked : ShipDock → ℕ → EntityRef → Tx (Unit {0})
check_docked dock actor at =
    if not (dock.player_id == actor) then raise ship_forbidden else elim dock.docked [
      | none ↦ raise not_docked
      | some docked ↦ raise_if (not (ref_eq docked at)) wrong_station
    ]

unfoldable pub authorize_docked : ℕ → ℕ → EntityRef → Tx (Unit {0})
unfolding check_docked
authorize_docked actor ship_id at = do
  dock ← CargoRepo.ship_dock ship_id
  check_docked dock actor at

unfoldable pub move_docked :
    ℕ → Option (ℕ × EntityRef) → EntityRef → EntityRef → ℕ → ℕ → Db → Result (Unit {0}) × Db
move_docked actor none from to g q db = refuse invalid_transfer db
move_docked actor (some (ship_id, at)) from to g q db =
    run_tx (authorize_docked actor ship_id at >> move_in actor from to g q) db

unfoldable pub move_by_player : ℕ → EntityRef → EntityRef → ℕ → ℤ → Db → Result (Unit {0}) × Db
move_by_player actor from to g qty db =
    if leb_ℤ qty (pos 0)
    then refuse non_positive_quantity db
    else if ref_eq from to
    then refuse same_owner db
    else move_docked actor (transfer_ends from to) from to g (pos_part qty) db
