-- ===== src/Examples/Prices.antt =====
-- Prices of one good, from 10 to 20 credits, on a shelf of 100.
use spaceempire_back.Prelude.{◌≡◌, ◌≤◌, ◌<◌, refl, some, arith}
use spaceempire_back.Prelude.Int.{pos, wrap_i64}
use spaceempire_back.Pricing
use spaceempire_back.Pricing.{Goods, dynamic_unit_price, Tier, high, low, price_tier}
use spaceempire_back.Pricing.Bounds.{
  InRange, dynamic_unit_price_bounds, dynamic_unit_price_antitone,
}

abbrev ice : Goods
ice = record { id = 2; avg_price = 10; max_price = 20 }

ice-InRange : InRange ice 100
ice-InRange = record { product = omega arith; price = omega arith }

price_at_thirty : dynamic_unit_price ice (pos 30) 100 ≡ some 17
unfolding dynamic_unit_price Pricing.at_least_one Pricing.interpolate Pricing.clamp_stock
    Pricing.div_i64 Pricing.add_i64 wrap_i64
price_at_thirty = refl

price_at_ninety : dynamic_unit_price ice (pos 90) 100 ≡ some 11
unfolding dynamic_unit_price Pricing.at_least_one Pricing.interpolate Pricing.clamp_stock
    Pricing.div_i64 Pricing.add_i64 wrap_i64
price_at_ninety = refl

dynamic_unit_price_bounds_example : (0 < 17) × (10 ≤ 17) × (17 ≤ 20)
dynamic_unit_price_bounds_example =
    dynamic_unit_price_bounds ice (pos 30) 100 ice-InRange price_at_thirty

dynamic_unit_price_antitone_example : 11 ≤ 17
dynamic_unit_price_antitone_example =
    dynamic_unit_price_antitone ice (pos 30) (pos 90) 100 ice-InRange refl price_at_thirty
      price_at_ninety

price_at_zero : dynamic_unit_price ice (pos 0) 100 ≡ some 20
unfolding dynamic_unit_price Pricing.at_least_one Pricing.interpolate Pricing.clamp_stock
    Pricing.div_i64 Pricing.add_i64 wrap_i64
price_at_zero = refl
