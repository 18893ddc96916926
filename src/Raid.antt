-- ===== src/Raid.antt =====
-- internal/trade/service.go: the market side of a station hack, `Rob`. The float products of the
-- hack's fractions are parameters: `rob_of` and `damage_of` are `int64(frac * float64(stock))`,
-- and `too_little` is `float64(stock) < minFrac * float64(basis)`.
pub mod Units
pub mod Richest
pub mod Taking
use spaceempire_back.Prelude.{
  ℕ, ◌+◌, ◌*◌, Bool, true, false, ◌&&◌, ◌||◌, Option, none, some, List, [], ◌∷◌, ltb, leb, ◌==◌,
  if◌then◌else◌, not,
}
use spaceempire_back.Prelude.Int.{pos, ltb_ℤ, wrap_i64, neg_i64}
use spaceempire_back.Domain.{EntityKind, trade_station, EntityRef}
use spaceempire_back.Store.Tables.{MarketEntry, Db}
use spaceempire_back.Store.Tx.{
  Tx, Result, pure, raise, raise_if, run_tx, invalid_station_kind, too_little_goods, ◌>>=◌, ◌>>◌,
}
use spaceempire_back.CargoRepo.{unowned_goods}
use spaceempire_back.CargoRepo
use spaceempire_back.MarketRepo
use spaceempire_back.MarketRepo.{is_station_kind}
use spaceempire_back.Trade.{relabel, invalid_kind}

pub record RobOutcome : Type 0 where
  pub goods_type : ℕ
  pub robbed : ℕ
  pub damaged : ℕ
  pub delivered : Bool
  pub max_stock : ℕ

abbrev lookup_ref : ℕ → List (ℕ × ℕ) → Option ℕ
lookup_ref g [] = none
lookup_ref g ((h, m) ∷ rest) = if g == h then some m else lookup_ref g rest

abbrev positive_ref : Option ℕ → Option ℕ
positive_ref none = none
positive_ref (some m) = if ltb 0 m then some m else none

-- The basis of a hack on one entry; `none` is an entry that cannot be robbed.
unfoldable pub hack_basis : MarketEntry → EntityKind → List (ℕ × ℕ) → Option ℕ
hack_basis e trade_station refs = positive_ref (lookup_ref e.goods_type refs)
hack_basis e _ refs = some e.max_stock

pub record Target : Type 0 where
  pub entry : MarketEntry
  pub basis : ℕ

abbrev pub is_better : MarketEntry → Option Target → Bool
is_better e none = true
is_better e (some best) =
    ltb best.entry.stock e.stock
    || (e.stock == best.entry.stock && ltb e.goods_type best.entry.goods_type)

abbrev pub better : MarketEntry → Option ℕ → Option Target → Option Target
better e none best = best
better e (some basis) best =
    if is_better e best then some (record { entry = e; basis = basis }) else best

-- The loop of `richestRobbable`, from the best entry so far.
unfoldable pub richest_from :
    Option Target → List MarketEntry → EntityKind → List (ℕ × ℕ) → Option Target
richest_from best [] kind refs = best
richest_from best (e ∷ es) kind refs =
    richest_from (better e (hack_basis e kind refs) best) es kind refs

unfoldable pub richest_robbable : List MarketEntry → EntityKind → List (ℕ × ℕ) → Option Target
unfolding richest_from
richest_robbable = richest_from none

-- The reference caps are read for a trade station only.
unfoldable pub refs_for : EntityKind → Tx (List (ℕ × ℕ))
refs_for trade_station = MarketRepo.production_ref_maxes
refs_for _ = pure []

module _ (rob_of damage_of : ℕ → ℕ) (too_little : ℕ → ℕ → Bool) where
  -- `if robbed+damaged > target.Stock { robbed = 0 }`
  unfoldable pub robbed_units : ℕ → ℕ
  robbed_units stock =
      if ltb_ℤ (pos stock) (wrap_i64 (rob_of stock + damage_of stock)) then 0 else rob_of stock

  unfoldable pub damaged_units : ℕ → ℕ
  damaged_units stock = if ltb stock (damage_of stock) then 0 else damage_of stock

  unfoldable pub take_from_shelf : EntityRef → Target → Tx (Unit {0})
  take_from_shelf at t =
      let total = robbed_units t.entry.stock + damaged_units t.entry.stock in
      if ltb_ℤ (pos 0) (wrap_i64 total)
      then (do
        new_stock ← MarketRepo.adjust_stock at t.entry.goods_type (neg_i64 (wrap_i64 total))
        pure tt)
      else pure tt

  -- The loot goes into the hacker's hold if it fits; `false` leaves it to the caller.
  unfoldable pub deliver : EntityRef → ℕ → ℕ → Tx Bool
  deliver hacker g robbed = do
    gt ← CargoRepo.goods_type g
    capacity ← CargoRepo.capacity hacker
    used ← CargoRepo.used_space hacker
    if leb (used + robbed * gt.space) capacity
        then (do CargoRepo.add hacker g robbed unowned_goods; pure true)
        else pure false

  unfoldable pub rob_target : EntityRef → EntityRef → Bool → Target → Tx RobOutcome
  rob_target at hacker to_hold t = do
    raise_if (t.basis == 0 || too_little t.entry.stock t.basis) too_little_goods
    take_from_shelf at t
    delivered ←
        (if to_hold && ltb 0 (robbed_units t.entry.stock)
          then deliver hacker t.entry.goods_type (robbed_units t.entry.stock)
          else pure false)
    pure (record {
      goods_type = t.entry.goods_type;
      robbed = robbed_units t.entry.stock;
      damaged = damaged_units t.entry.stock;
      delivered = delivered;
      max_stock = t.basis;
    })

  unfoldable pub rob_richest : EntityRef → EntityRef → Bool → Option Target → Tx RobOutcome
  rob_richest at hacker to_hold none = raise too_little_goods
  rob_richest at hacker to_hold (some t) = rob_target at hacker to_hold t

  unfoldable pub rob_in : EntityRef → EntityRef → Bool → Tx RobOutcome
  rob_in at hacker to_hold = do
    raise_if (not (is_station_kind at.kind)) invalid_station_kind
    entries ← relabel invalid_kind (MarketRepo.list_market at)
    refs ← refs_for at.kind
    rob_richest at hacker to_hold (richest_robbable entries at.kind refs)

  unfoldable pub rob : EntityRef → EntityRef → Bool → Db → Result RobOutcome × Db
  rob at hacker to_hold = run_tx (rob_in at hacker to_hold)
