-- ===== src/Examples/Factories.antt =====
-- A battery plant without an owner and a forge of a player, at a tick that ends both cycles; another forge starts, and that is
-- not committed.
use spaceempire_back.Prelude.{
  ℕ, ◌≡◌, refl, Bool, not, ◌==◌, true, false, none, some, List, [], ◌∷◌, arith, All,
}
use spaceempire_back.Prelude.Int.{wrap_i64}
use spaceempire_back.Domain.{station, ref_eq, kind_code}
use spaceempire_back.Store.Tables.{Db, MarketEntry}
use spaceempire_back.Store.Tables
use spaceempire_back.Store.Tx.{run_tx, run_tx_commit}
use spaceempire_back.MarketRepo.{
  adjust_stock, list_market, order_by_goods, is_station_kind, update_stock, shift_stock,
}
use spaceempire_back.StationsRepo.{set_production, update_production}
use spaceempire_back.Production.{Recipe, RecipeLine, Station, finish_cycle, tick}
use spaceempire_back.Production
use spaceempire_back.Production.Cycle.{Finished, finish_cycle_exact}
use spaceempire_back.Production.Ticks.{DistinctStations, After, tick-Agrees}
use spaceempire_back.Examples.World.{world}

-- Crystals (goods 2) become batteries (goods 1), and those become plates (goods 3).
abbrev recipes : List Recipe
recipes =
    record {
      station_type = 10;
      inputs = record { goods_type = 2; quantity = 5 } ∷ [];
      outputs = record { goods_type = 1; quantity = 20 } ∷ [];
      cycle_time = 60000;
    }
    ∷ record {
      station_type = 11;
      inputs = record { goods_type = 1; quantity = 4 } ∷ [];
      outputs = record { goods_type = 3; quantity = 2 } ∷ [];
      cycle_time = 90000;
    }
    ∷ []

abbrev plant : Station
plant = record {
  id = 7;
  station_type = 10;
  owner_id = none;
  built = true;
  in_progress = true;
  next_cycle_at = some 100000;
}

abbrev forge : Station
forge = record {
  id = 8;
  station_type = 11;
  owner_id = some 1;
  built = true;
  in_progress = true;
  next_cycle_at = some 100000;
}

-- An idle forge, whose start is not committed.
abbrev new_forge : Station
new_forge = record {
  id = 9;
  station_type = 11;
  owner_id = some 1;
  built = true;
  in_progress = false;
  next_cycle_at = none;
}

abbrev commits : ℕ → Bool
commits i = not (i == 9)

abbrev row : Station → Tables.Station
row st = record {
  id = st.id;
  station_type = st.station_type;
  owner_id = st.owner_id;
  built = st.built;
  in_progress = st.in_progress;
  next_cycle_at = st.next_cycle_at;
  cargobay = 1000;
}

abbrev shelf : ℕ → ℕ → ℕ → ℕ → MarketEntry
shelf i g stock max_stock = record {
  owner = record { kind = station; id = i };
  goods_type = g;
  buy_price = none;
  sell_price = none;
  stock = stock;
  max_stock = max_stock;
}

-- The plant has three of the five crystals that it needs.
abbrev works : Db
works = record world {
  stations = row plant ∷ row forge ∷ row new_forge ∷ [];
  station_goods =
      shelf 7 1 10 100
      ∷ shelf 7 2 3 100
      ∷ shelf 8 1 9 100
      ∷ shelf 8 3 0 100
      ∷ shelf 9 1 4 100
      ∷ shelf 9 3 0 100
      ∷ [];
}

abbrev forge_recipe : Recipe
forge_recipe = record {
  station_type = 11;
  inputs = record { goods_type = 1; quantity = 4 } ∷ [];
  outputs = record { goods_type = 3; quantity = 2 } ∷ [];
  cycle_time = 90000;
}

finish_cycle_exact_example :
    Finished forge forge_recipe false true works (finish_cycle forge forge_recipe false true works)
finish_cycle_exact_example = finish_cycle_exact forge forge_recipe false true works

abbrev sector : List Station
sector = plant ∷ forge ∷ new_forge ∷ []

sector-DistinctStations : DistinctStations sector
sector-DistinctStations = (
  ((λ e. omega (arith, e)), ((λ e. omega (arith, e)), tt)),
  (((λ e. omega (arith, e)), tt), (tt, tt)),
)

tick-Agrees_example :
    All
      (After recipes commits 120000 works (tick recipes commits 120000 sector works).db)
      (tick recipes commits 120000 sector works).stations
tick-Agrees_example =
    tick-Agrees recipes commits 120000 sector works sector-DistinctStations
      ((refl, refl), ((refl, refl), ((refl, refl), tt)))

ticked :
    (tick recipes commits 120000 sector works).db.station_goods
    ≡ shelf 7 1 30 100
      ∷ shelf 7 2 0 100
      ∷ shelf 8 1 5 100
      ∷ shelf 8 3 2 100
      ∷ shelf 9 1 4 100
      ∷ shelf 9 3 0 100
      ∷ []
unfolding tick Production.turn Production.run_recipe Production.find_recipe Production.is_due
    finish_cycle Production.after_finish run_tx run_tx_commit Production.set_in_memory
    Production.finish_in Production.load_market list_market is_station_kind Production.can_run
    Production.free_input_production Production.has_inputs Production.stock_in
    Production.index_market order_by_goods kind_code ref_eq adjust_stock shift_stock update_stock
    wrap_i64 Production.after_start Production.consume_inputs Production.has_output_room
    Production.makes_energy Production.maybe_start_cycle Production.produce_outputs
    Production.settle_cycle Production.taken Production.start_in Production.settle_start
    set_production update_production
ticked = refl
