-- ===== src/Examples/Holds.antt =====
-- Transfers between the hauler and the mine.
use spaceempire_back.Prelude.{
  ◌+◌, ◌≡◌, ◌≤◌, ◌<◌, ◌≢◌, ◌&&◌, ◌==◌, refl, ℕ, true, false, some, arith,
}
use spaceempire_back.Prelude.Int.{pos, leb_ℤ, ltb_ℤ}
use spaceempire_back.Domain.{EntityRef, ref_eq, kind_code}
use spaceempire_back.Store.Tables.{Db, key_eq}
use spaceempire_back.Store.Tx.{done, ok, fail, run_tx, no_space, insufficient_quantity}
use spaceempire_back.CargoRepo
use spaceempire_back.CargoRepo.{cargo_key, used_by}
use spaceempire_back.CargoRepo.Weights.{held, deposit}
use spaceempire_back.CargoRepo.Effects.{CargoOnly, Loses}
use spaceempire_back.Cargo
use spaceempire_back.Cargo.{
  move, move_by_player, transfer_ends, available_in, consume_in, fits_in, add_in,
}
use spaceempire_back.Cargo.Moves.{move_exact, move-keeps_deposits, move_fits}
use spaceempire_back.Cargo.Gate.{
  IsDocked, HasEnds, move_by_player-authorized, move_by_player-docked,
}
use spaceempire_back.Cargo.Quantities.{available_in-consume_in, fits_in-add_in}
use spaceempire_back.Examples.World.{mine, hauler, ore, vessel_of, world, unloaded}

unloads : move 7 hauler mine 1 (pos 5) world ≡ (done tt, unloaded)
unfolding move Cargo.move_in Cargo.subtract_from_source Cargo.is_station_like Cargo.depositor_at
    run_tx ref_eq key_eq kind_code CargoRepo.goods_type CargoRepo.find_goods_type CargoRepo.capacity
    CargoRepo.capacity_of_kind CargoRepo.used_space CargoRepo.used_by CargoRepo.space_of
    CargoRepo.subtract CargoRepo.take_stack CargoRepo.delete_empty CargoRepo.add CargoRepo.add_stack
unloads = refl

unloads_by_player : move_by_player 7 hauler mine 1 (pos 5) world ≡ (done tt, unloaded)
unfolding move_by_player Cargo.move_docked transfer_ends Cargo.is_ship Cargo.is_transfer_station
    Cargo.authorize_docked Cargo.check_docked CargoRepo.ship_dock CargoRepo.find_ship Cargo.move_in
    Cargo.subtract_from_source Cargo.is_station_like Cargo.depositor_at run_tx ref_eq key_eq
    kind_code CargoRepo.goods_type CargoRepo.find_goods_type CargoRepo.capacity
    CargoRepo.capacity_of_kind CargoRepo.used_space CargoRepo.used_by CargoRepo.space_of
    CargoRepo.subtract CargoRepo.take_stack CargoRepo.delete_empty CargoRepo.add CargoRepo.add_stack
unloads_by_player = refl

move_exact_example :
    (leb_ℤ (pos 5) (pos 0) ≡ false)
    × (held hauler 1 unloaded.cargo + 5 ≡ held hauler 1 world.cargo)
    × (held mine 1 unloaded.cargo ≡ held mine 1 world.cargo + 5)
    × ((o : EntityRef) (h : ℕ)
        → (ref_eq hauler o && 1 == h) ≡ false
        → (ref_eq mine o && 1 == h) ≡ false
        → held o h unloaded.cargo ≡ held o h world.cargo)
    × CargoOnly world unloaded
move_exact_example = move_exact 7 hauler mine 1 (pos 5) world unloads

eight_is_not_seven : ◌≢◌ {A = ℕ} 8 7
eight_is_not_seven = omega arith

eight_is_not_zero : ◌≢◌ {A = ℕ} 8 0
eight_is_not_zero = omega arith

move-keeps_deposits_example :
    deposit (cargo_key mine 1 8) unloaded.cargo ≡ deposit (cargo_key mine 1 8) world.cargo
move-keeps_deposits_example =
    move-keeps_deposits 7 hauler mine 1 (pos 5) world unloads (cargo_key mine 1 8)
      eight_is_not_seven eight_is_not_zero

move_fits_example :
    (room : ℕ) × (CargoRepo.capacity mine world ≡ ok room world)
    × (used_by unloaded.goods_types mine unloaded.cargo ≤ room)
move_fits_example = move_fits 7 hauler mine 1 (pos 5) world unloads

move_by_player-authorized_example :
    (ship_id : ℕ) × (at : EntityRef) × HasEnds hauler mine ship_id at
    × IsDocked 7 ship_id at world
    × (move 7 hauler mine 1 (pos 5) world ≡ (done tt, unloaded))
move_by_player-authorized_example =
    move_by_player-authorized 7 hauler mine 1 (pos 5) world unloads_by_player

ends_of_unloading : transfer_ends hauler mine ≡ some (10, mine)
unfolding transfer_ends Cargo.is_ship Cargo.is_transfer_station
ends_of_unloading = refl

hauler-IsDocked : IsDocked 7 10 mine world
unfolding CargoRepo.find_ship
hauler-IsDocked = record { vessel = vessel_of 10 7; found = refl; owned = refl; docked = refl }

move_by_player-docked_example :
    move_by_player 7 hauler mine 1 (pos 5) world ≡ move 7 hauler mine 1 (pos 5) world
move_by_player-docked_example =
    move_by_player-docked 7 hauler mine 1 (pos 5) world 10 mine ends_of_unloading hauler-IsDocked

twenty_available : available_in hauler 1 world ≡ ok 20 world
unfolding available_in CargoRepo.quantity CargoRepo.stack CargoRepo.goods_type
    CargoRepo.find_goods_type ref_eq key_eq kind_code
twenty_available = refl

available_in-consume_in_example :
    (5 ≤ 20
      → (after : Db) × (consume_in hauler 1 (pos 5) world ≡ ok tt after)
        × Loses (cargo_key hauler 1 0) 5 world after)
    × (20 < 5 → consume_in hauler 1 (pos 5) world ≡ fail insufficient_quantity world)
available_in-consume_in_example =
    available_in-consume_in hauler 1 (pos 5) world twenty_available refl

thirty_fit : fits_in hauler 1 (pos 50) world ≡ ok (pos 30) world
unfolding fits_in Cargo.fits_by_space Cargo.clamp_fits Cargo.whole_units CargoRepo.goods_type
    CargoRepo.find_goods_type CargoRepo.capacity CargoRepo.capacity_of_kind CargoRepo.find_ship
    CargoRepo.used_space CargoRepo.used_by CargoRepo.space_of ref_eq kind_code
thirty_fit = refl

ore_known : CargoRepo.goods_type 1 world ≡ ok ore world
unfolding CargoRepo.goods_type CargoRepo.find_goods_type
ore_known = refl

ore_takes_space : 0 < 2
ore_takes_space = omega arith

fits_in-add_in_example :
    ((q : ℕ)
      → 0 < q
      → leb_ℤ (pos q) (pos 30) ≡ true
      → add_in hauler 1 q world ≡ CargoRepo.add hauler 1 q 0 world)
    × (ltb_ℤ (pos 30) (pos 50) ≡ true → add_in hauler 1 31 world ≡ fail no_space world)
fits_in-add_in_example = fits_in-add_in hauler 1 (pos 50) world ore_known ore_takes_space thirty_fit
