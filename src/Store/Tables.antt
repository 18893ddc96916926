-- ===== src/Store/Tables.antt =====
-- The tables of migrations/0001 to 0064 that the economy reads and writes, one record to a row.
-- A column with a CHECK that keeps it from being negative is a number; NULL is `none`.
-- Volumes (goods_types.space, cargobay) are DOUBLE PRECISION columns that hold whole cubic
-- metres; whole numbers below 2 ^ 53 are exact there, and so are their sums and products.
use Prim.Native.String.{String}
use spaceempire_back.Prelude.{ℕ, ◌/◌, ◌*◌, ◌≡◌, Bool, true, ◌&&◌, Option, List, arith, ◌==◌}
use spaceempire_back.Domain.{EntityRef, ref_eq, ref_eq_refl, ref_eq→≡}

-- A moment is in nanoseconds, as Go keeps it; a TIMESTAMPTZ column keeps whole microseconds.
abbrev pub stored_time : ℕ → ℕ
stored_time t = t / 1000 * 1000

pub record GoodsType : Type 0 where
  pub id : ℕ
  pub name : String
  pub space : ℕ

-- `docked_kind` and `docked_id` are both NULL or both set (migrations/0005).
pub record Ship : Type 0 where
  pub id : ℕ
  pub player_id : ℕ
  pub sector_id : ℕ
  pub docked : Option EntityRef
  pub cargobay : ℕ

pub record Station : Type 0 where
  pub id : ℕ
  pub station_type : ℕ
  pub owner_id : Option ℕ
  pub built : Bool
  pub in_progress : Bool
  pub next_cycle_at : Option ℕ
  pub cargobay : ℕ

pub record TradeStation : Type 0 where
  pub id : ℕ
  pub owner_id : Option ℕ
  pub cargobay : ℕ

-- The UNIQUE key of `cargo`: where the goods are, what they are, and who deposited them.
pub record CargoKey : Type 0 where
  pub owner : EntityRef
  pub goods_type : ℕ
  pub goods_owner : ℕ

pub record CargoRow : Type 0 where
  pub key : CargoKey
  pub quantity : ℕ

-- One row of `station_goods`.
pub record MarketEntry : Type 0 where
  pub owner : EntityRef
  pub goods_type : ℕ
  pub buy_price : Option ℕ
  pub sell_price : Option ℕ
  pub stock : ℕ
  pub max_stock : ℕ

pub record Player : Type 0 where
  pub id : ℕ
  pub cash : ℕ
  pub war_rate : ℕ
  pub trade_rate : ℕ

pub data Status : Type 0 where
  active closed cancelled : Status

pub record Lot : Type 0 where
  pub id : ℕ
  pub seller_id : ℕ
  pub goods_type : ℕ
  pub quantity : ℕ
  pub source : EntityRef
  pub start_price : ℕ
  pub current_price : ℕ
  pub current_bidder_id : Option ℕ
  pub ends_at : ℕ
  pub status : Status
  pub created_at : ℕ

pub record BidRow : Type 0 where
  pub lot_id : ℕ
  pub bidder_id : ℕ
  pub amount : ℕ

pub data PolicyStatus : Type 0 where
  policy_active policy_claimed policy_expired : PolicyStatus

-- One row of `insurance_policies`, without its date of creation.
pub record Policy : Type 0 where
  pub id : ℕ
  pub ship_id : ℕ
  pub player_id : ℕ
  pub premium_paid : ℕ
  pub coverage : ℕ
  pub status : PolicyStatus
  pub expires_at : ℕ
  pub claimed_at : Option ℕ

pub record Shipyard : Type 0 where
  pub id : ℕ
  pub owner_id : Option ℕ

-- One row of `rents`, without its date of creation.
pub record Rent : Type 0 where
  pub id : ℕ
  pub payer : ℕ
  pub station : EntityRef
  pub amount_per_period : ℕ
  pub unpaid_periods : ℕ
  pub last_paid_at : Option ℕ
  pub next_due_at : ℕ

-- `next_lot_id`, `next_policy_id` and `next_rent_id` are the BIGSERIALs of their tables.
pub record Db : Type 0 where
  pub goods_types : List GoodsType
  pub ships : List Ship
  pub stations : List Station
  pub trade_stations : List TradeStation
  pub cargo : List CargoRow
  pub station_goods : List MarketEntry
  pub players : List Player
  pub auction_lots : List Lot
  pub auction_bids : List BidRow
  pub next_lot_id : ℕ
  pub insurance_policies : List Policy
  pub next_policy_id : ℕ
  pub shipyards : List Shipyard
  pub rents : List Rent
  pub next_rent_id : ℕ

unfoldable pub key_eq : CargoKey → CargoKey → Bool
unfolding ref_eq
key_eq a b =
    ref_eq a.owner b.owner && (a.goods_type == b.goods_type && a.goods_owner == b.goods_owner)

pub key_eq_refl : (a : CargoKey) → key_eq a a ≡ true
unfolding key_eq
key_eq_refl a = ground (arith, ref_eq_refl a.owner)

pub key_eq→≡ : (a b : CargoKey) → key_eq a b ≡ true → a ≡ b
unfolding key_eq
key_eq→≡ a b h = ground (arith, ref_eq→≡ a.owner b.owner)
