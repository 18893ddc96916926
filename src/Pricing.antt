-- ===== src/Pricing.antt =====
-- internal/trade/pricing.go: the live price of a good, and the tier that a scanner shows.
-- Prices are int64s that are not negative (balance.New refuses a negative one); a stock may be a
-- forecast below zero. Products and sums wrap as int64s do.
pub mod Bounds
pub mod Tiers
use spaceempire_back.Prelude.{
  ℕ, ◌+◌, ◌-◌, ◌*◌, ◌/◌, Bool, true, false, ◌||◌, Option, none, some, List, ltb, leb, ◌==◌,
  if◌then◌else◌, find_row,
}
use spaceempire_back.Prelude.Int.{
  ℤ, pos, negsuc, pos_part, neg_part, neg, sub_ℕ, ltb_ℤ, leb_ℤ, wrap_i64,
}

-- The part of balance.Goods that pricing reads.
pub record Goods : Type 0 where
  pub id : ℕ
  pub avg_price : ℕ
  pub max_price : ℕ

-- A quotient of int64s, which cuts towards zero; the divisor is positive where it is called.
unfoldable pub div_i64 : ℤ → ℕ → ℤ
div_i64 (pos n) d = pos (n / d)
div_i64 (negsuc n) d = neg ((n + 1) / d)

-- `avg + x`, where only a positive sum can wrap.
unfoldable pub add_i64 : ℕ → ℤ → ℤ
add_i64 a (pos n) = wrap_i64 (a + n)
add_i64 a (negsuc n) = sub_ℕ a (n + 1)

-- The stock, brought into 0 to max_stock.
unfoldable pub clamp_stock : ℤ → ℕ → ℕ
clamp_stock stock max_stock =
    if ltb_ℤ stock (pos 0)
    then 0
    else if ltb max_stock (pos_part stock)
    then max_stock
    else pos_part stock

-- `if price < 1 { price = 1 }`
unfoldable pub at_least_one : ℤ → ℕ
at_least_one price = if ltb_ℤ price (pos 1) then 1 else pos_part price

unfoldable pub interpolate : ℕ → ℕ → ℕ → ℕ → ℤ
unfolding div_i64 add_i64
interpolate avg max stock max_stock =
    add_i64 avg (div_i64 (wrap_i64 ((max - avg) * (max_stock - stock))) max_stock)

-- Whether the good has a band of prices and the station room for it.
abbrev pub has_no_band : ℕ → ℕ → ℕ → Bool
has_no_band avg max max_stock = avg == 0 || (leb max avg || max_stock == 0)

unfoldable pub dynamic_unit_price : Goods → ℤ → ℕ → Option ℕ
dynamic_unit_price g stock max_stock =
    if has_no_band g.avg_price g.max_price max_stock
    then none
    else some
        (at_least_one (interpolate g.avg_price g.max_price (clamp_stock stock max_stock) max_stock))

unfoldable pub projected_unit_price : Goods → ℤ → ℕ → Option ℕ
projected_unit_price = dynamic_unit_price

abbrev price_or : Option ℕ → ℕ → ℕ
price_or none column = column
price_or (some p) column = p

abbrev price_of : Option Goods → ℕ → ℕ → ℕ → ℕ
price_of none column stock max_stock = column
price_of (some g) column stock max_stock =
    price_or (dynamic_unit_price g (pos stock) max_stock) column

-- `priceFor`; no balance, or a good that it does not know, leaves the column price.
unfoldable pub price_for : Option (List Goods) → ℕ → ℕ → ℕ → ℕ → ℕ
price_for none g column stock max_stock = column
price_for (some bal) g column stock max_stock =
    price_of (find_row (λ x. x.id == g) bal) column stock max_stock

pub data Tier : Type 0 where
  high medium low : Tier

-- `3*offset` and `2*band` on int64.
unfoldable pub tier_in_band : ℕ → ℕ → Tier
tier_in_band offset band =
    if leb_ℤ (wrap_i64 (2 * band)) (wrap_i64 (3 * offset))
    then high
    else if leb_ℤ (pos band) (wrap_i64 (3 * offset))
    then medium
    else low

unfoldable pub price_tier : ℕ → ℕ → ℕ → Tier
price_tier price avg max =
    if avg == 0 || leb max avg
    then (if leb avg price then high else low)
    else if ltb price avg
    then low
    else tier_in_band (price - avg) (max - avg)
