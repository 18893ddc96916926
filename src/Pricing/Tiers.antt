-- ===== src/Pricing/Tiers.antt =====
-- internal/trade/pricing.go: the tiers that a scanner shows, over the band of a good.
use spaceempire_back.Prelude.{ℕ, ◌-◌, ◌*◌, ◌≤◌, ◌<◌, ◌≡◌, arith, leb, if◌then◌else◌, ◌↔◌}
use spaceempire_back.Prelude.Int.{max_i64, wrap_i64_small}
use spaceempire_back.Pricing.{Tier, high, medium, low, tier_in_band, price_tier}

abbrev pub rank : Tier → ℕ
rank low = 0
rank medium = 1
rank high = 2

tier_in_band_lem :
    (offset band : ℕ)
    → 3 * offset ≤ max_i64
    → 2 * band ≤ max_i64
    → tier_in_band offset band ≡ (
        if leb (2 * band) (3 * offset) then high else if leb band (3 * offset) then medium else low)
unfolding tier_in_band
tier_in_band_lem offset band a b =
    rw (wrap_i64_small (3 * offset) a, wrap_i64_small (2 * band) b) (ground arith)

-- For a price inside a real band, and int64 products: the tier is high exactly in the upper
-- third, low exactly below the first third, and medium between them.
pub price_tier_thirds :
    (price avg max : ℕ)
    → 0 < avg
    → avg ≤ price
    → price ≤ max
    → avg < max
    → 3 * max ≤ max_i64
    → ((price_tier price avg max ≡ high) ↔ (2 * (max - avg) ≤ 3 * (price - avg)))
      × ((price_tier price avg max ≡ low) ↔ (3 * (price - avg) < max - avg))
unfolding price_tier
price_tier_thirds price avg max a b c d e =
    ground (arith, tier_in_band_lem (price - avg) (max - avg))

-- For prices whose triple fits an int64, a higher price never shows a lower tier.
pub price_tier_mono :
    (p q avg max : ℕ)
    → p ≤ q
    → 3 * q ≤ max_i64
    → 3 * max ≤ max_i64
    → rank (price_tier p avg max) ≤ rank (price_tier q avg max)
unfolding price_tier
price_tier_mono p q avg max le a b =
    ground (arith, tier_in_band_lem (p - avg) (max - avg), tier_in_band_lem (q - avg) (max - avg))
