-- ===== src/Examples/Hack.antt =====
-- A hack that robs half and damages a tenth of the fullest shelf.
use spaceempire_back.Prelude.{
  true, ℕ, ◌+◌, ◌/◌, ◌≤◌, ◌≡◌, Bool, false, some, List, [], ◌∷◌, All, arith, refl,
}
use spaceempire_back.Prelude.Int.{max_i64, wrap_i64, neg_i64}
use spaceempire_back.Domain.{station, ref_eq, kind_code}
use spaceempire_back.Store.Tables.{MarketEntry, Db, key_eq}
use spaceempire_back.Store.Tx.{done, run_tx}
use spaceempire_back.CargoRepo
use spaceempire_back.CargoRepo.Weights.{held}
use spaceempire_back.MarketRepo
use spaceempire_back.Trade.Deals.{shelf}
use spaceempire_back.Raid
use spaceempire_back.Raid.Taking.{rob_exact}
use spaceempire_back.Raid.{
  RobOutcome, rob, Target, richest_from, richest_robbable, hack_basis, robbed_units, damaged_units,
}
use spaceempire_back.Raid.Richest.{Beats, Candidate, richest_robbable_lem}
use spaceempire_back.Raid.Units.{raid_units_le}
use spaceempire_back.Examples.World.{mine, hauler, row_of, shelf_of, world}

abbrev half : ℕ → ℕ
half n = n / 2

abbrev tenth : ℕ → ℕ
tenth n = n / 10

abbrev never : ℕ → ℕ → Bool
never stock basis = false

products_fit : half 30 + tenth 30 ≤ max_i64
products_fit = omega arith

raid_units_le_example : robbed_units half tenth never 30 + damaged_units half tenth never 30 ≤ 30
raid_units_le_example = raid_units_le half tenth never 30 products_fit

abbrev shelves : List MarketEntry
shelves =
    record (shelf_of 20) { goods_type = 4 }
    ∷ shelf_of 30
    ∷ record (shelf_of 30) { goods_type = 2 }
    ∷ []

abbrev target : Target
target = record { entry = shelf_of 30; basis = 100 }

picked : richest_robbable shelves station [] ≡ some target
unfolding richest_robbable richest_from hack_basis
picked = refl

richest_robbable_lem_example :
    Candidate station [] shelves target × All (Beats station [] target.entry) shelves
richest_robbable_lem_example = richest_robbable_lem station [] shelves picked

abbrev after_hack : Db
after_hack = record world {
  cargo = row_of hauler 0 35 ∷ row_of mine 8 3 ∷ [];
  station_goods = shelf_of 12 ∷ [];
}

abbrev loot : RobOutcome
loot = record { goods_type = 1; robbed = 15; damaged = 3; delivered = true; max_stock = 100 }

hacks : rob half tenth never mine hauler true world ≡ (done loot, after_hack)
unfolding rob run_tx ref_eq key_eq kind_code Raid.rob_in MarketRepo.is_station_kind
    MarketRepo.list_market MarketRepo.order_by_goods Raid.refs_for richest_robbable richest_from
    hack_basis Raid.rob_richest Raid.rob_target Raid.take_from_shelf robbed_units damaged_units
    MarketRepo.adjust_stock MarketRepo.shift_stock MarketRepo.update_stock Raid.deliver
    CargoRepo.goods_type CargoRepo.find_goods_type CargoRepo.capacity CargoRepo.used_space
    CargoRepo.used_by CargoRepo.add wrap_i64 neg_i64 CargoRepo.find_ship
hacks = refl

loot_fits : 15 + 3 ≤ max_i64
loot_fits = omega arith

rob_exact_example :
    (shelf mine 1 after_hack.station_goods + (15 + 3) ≡ shelf mine 1 world.station_goods)
    × (held hauler 1 after_hack.cargo ≡ held hauler 1 world.cargo + 15)
    × (after_hack
        ≡ record world { station_goods = after_hack.station_goods; cargo = after_hack.cargo })
rob_exact_example = rob_exact half tenth never mine hauler true world hacks loot_fits
