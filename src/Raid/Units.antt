-- ===== src/Raid/Units.antt =====
-- internal/trade/service.go: the quantities of a hack.
use spaceempire_back.Prelude.{ℕ, ◌+◌, ◌≤◌, Bool, arith}
use spaceempire_back.Prelude.Int.{max_i64, wrap_i64_small}
use spaceempire_back.Raid.{robbed_units, damaged_units}

-- Where the two products of a hack together fit an int64, what is robbed and what is damaged are
-- together at most what the shelf holds.
pub raid_units_le :
    (rob_of damage_of : ℕ → ℕ) (too_little : ℕ → ℕ → Bool) (stock : ℕ)
    → rob_of stock + damage_of stock ≤ max_i64
    → robbed_units rob_of damage_of too_little stock
        + damaged_units rob_of damage_of too_little stock
      ≤ stock
unfolding robbed_units damaged_units
raid_units_le rob_of damage_of too_little stock small =
    ground (arith, wrap_i64_small (rob_of stock + damage_of stock) small)
