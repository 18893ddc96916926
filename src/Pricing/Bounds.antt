-- ===== src/Pricing/Bounds.antt =====
-- internal/trade/pricing.go: the dynamic price over the band of a good.
use native.Mathlib.Nat.{
  div-le_of_le-mul, div-mul-le_self, le-div_iff_mul-le, zero-div, mul-div_left,
}
use spaceempire_back.Prelude.{ℕ, ◌+◌, ◌-◌, ◌*◌, ◌/◌, ◌≤◌, ◌<◌, ◌≡◌, some, arith, true}
use spaceempire_back.Prelude.Int.{ℤ, pos, max_i64, wrap_i64, wrap_i64_small, leb_ℤ}
use spaceempire_back.Pricing.{Goods, dynamic_unit_price, clamp_stock, interpolate, at_least_one}

-- The prices and the stocks for which no product and no sum leaves int64.
pub record InRange (g : Goods) (max_stock : ℕ) : Type 0 where
  pub product : (g.max_price - g.avg_price) * max_stock ≤ max_i64
  pub price : g.max_price ≤ max_i64

-- The share of the band that is added for the empty part of the shelf.
abbrev markup : ℕ → ℕ → ℕ → ℕ → ℕ
markup avg max stock max_stock = (max - avg) * (max_stock - stock) / max_stock

product_le : (b m s : ℕ) → b * (m - s) ≤ b * m
product_le b m s = grind arith

markup_le : (avg max stock max_stock : ℕ) → markup avg max stock max_stock ≤ max - avg
markup_le avg max stock max_stock =
    div-le_of_le-mul max_stock (omega (arith, product_le (max - avg) max_stock stock))

interpolate_lem :
    (avg max stock max_stock : ℕ)
    → avg ≤ max
    → (max - avg) * max_stock ≤ max_i64
    → max ≤ max_i64
    → interpolate avg max stock max_stock ≡ pos (avg + markup avg max stock max_stock)
unfolding interpolate
interpolate_lem avg max stock max_stock le h k =
    let small : wrap_i64 ((max - avg) * (max_stock - stock))
        ≡ pos ((max - avg) * (max_stock - stock)) =
      wrap_i64_small _ (omega (arith, h, product_le (max - avg) max_stock stock)) in
    rw small (wrap_i64_small _ (omega (arith, markup_le avg max stock max_stock)))

clamp_stock_le : (stock : ℤ) (max_stock : ℕ) → clamp_stock stock max_stock ≤ max_stock
unfolding clamp_stock
clamp_stock_le stock max_stock = ground arith

pub dynamic_unit_price_lem :
    (g : Goods) (stock : ℤ) (max_stock : ℕ) {p : ℕ}
    → InRange g max_stock
    → dynamic_unit_price g stock max_stock ≡ some p
    → (0 < g.avg_price)
      × (g.avg_price < g.max_price)
      × (0 < max_stock)
      × (p ≡ g.avg_price + markup g.avg_price g.max_price (clamp_stock stock max_stock) max_stock)
unfolding dynamic_unit_price at_least_one
dynamic_unit_price_lem g stock max_stock r h =
    ground (arith, interpolate_lem g.avg_price g.max_price (clamp_stock stock max_stock) max_stock)

-- Where no product leaves int64, a dynamic price lies in the good's band, from its average to its
-- maximal price, and is at least one credit.
pub dynamic_unit_price_bounds :
    (g : Goods) (stock : ℤ) (max_stock : ℕ) {p : ℕ}
    → InRange g max_stock
    → dynamic_unit_price g stock max_stock ≡ some p
    → (0 < p) × (g.avg_price ≤ p) × (p ≤ g.max_price)
dynamic_unit_price_bounds g stock max_stock r h =
    let (a, b, c, e) = dynamic_unit_price_lem g stock max_stock r h in
    omega (arith, markup_le g.avg_price g.max_price (clamp_stock stock max_stock) max_stock)

div_mono : (a b k : ℕ) → 0 < k → a ≤ b → a / k ≤ b / k
div_mono a b k p h = (le-div_iff_mul-le p).1 (omega (arith, div-mul-le_self a k))

mul_mono : (a b c : ℕ) → b ≤ c → a * b ≤ a * c
mul_mono a b c h = grind arith

markup_mono :
    (avg max s t max_stock : ℕ)
    → 0 < max_stock
    → s ≤ t
    → markup avg max t max_stock ≤ markup avg max s max_stock
markup_mono avg max s t max_stock p le =
    div_mono _ _ max_stock p (mul_mono (max - avg) _ _ (omega arith))

clamp_stock_mono :
    (s t : ℤ) (max_stock : ℕ) → leb_ℤ s t ≡ true → clamp_stock s max_stock ≤ clamp_stock t max_stock
unfolding clamp_stock
clamp_stock_mono s t max_stock h = ground arith

-- Where no product leaves int64, scarcity never lowers a dynamic price: at a lower stock the
-- price is the same or higher.
pub dynamic_unit_price_antitone :
    (g : Goods) (s t : ℤ) (max_stock : ℕ) {p q : ℕ}
    → InRange g max_stock
    → leb_ℤ s t ≡ true
    → dynamic_unit_price g s max_stock ≡ some p
    → dynamic_unit_price g t max_stock ≡ some q
    → q ≤ p
dynamic_unit_price_antitone g s t max_stock r le hs ht =
    let (_, _, room, e) = dynamic_unit_price_lem g s max_stock r hs in
    let (_, _, _, f) = dynamic_unit_price_lem g t max_stock r ht in
    omega (
      arith,
      markup_mono g.avg_price g.max_price (clamp_stock s max_stock) (clamp_stock t max_stock)
          max_stock room (clamp_stock_mono s t max_stock le),
    )

clamp_stock_empty :
    (stock : ℤ) (max_stock : ℕ) → leb_ℤ stock (pos 0) ≡ true → clamp_stock stock max_stock ≡ 0
unfolding clamp_stock
clamp_stock_empty stock max_stock h = ground arith

clamp_stock_full :
    (stock : ℤ) (max_stock : ℕ)
    → leb_ℤ (pos max_stock) stock ≡ true
    → clamp_stock stock max_stock ≡ max_stock
unfolding clamp_stock
clamp_stock_full stock max_stock h = ground arith

markup_all : (b m : ℕ) → 0 < m → b * (m - 0) / m ≡ b
markup_all b m p = let whole : m - 0 ≡ m = omega arith in rw whole (mul-div_left b p)

markup_none : (b m : ℕ) → b * (m - m) / m ≡ 0
markup_none b m = let nothing : b * (m - m) ≡ 0 = grind arith in rw nothing (zero-div m)

-- Where no product leaves int64, an empty shelf trades at the maximal price of the band and a
-- full one at the average price; a stock outside the shelf counts as the nearer of the two.
pub dynamic_unit_price_ends :
    (g : Goods) (stock : ℤ) (max_stock : ℕ) {p : ℕ}
    → InRange g max_stock
    → dynamic_unit_price g stock max_stock ≡ some p
    → (leb_ℤ stock (pos 0) ≡ true → p ≡ g.max_price)
      × (leb_ℤ (pos max_stock) stock ≡ true → p ≡ g.avg_price)
dynamic_unit_price_ends g stock max_stock r h =
    let (a, b, room, e) = dynamic_unit_price_lem g stock max_stock r h in
    (
      λ empty. omega (
        arith,
        rw (clamp_stock_empty stock max_stock empty) at e,
        markup_all (g.max_price - g.avg_price) max_stock room,
      ),
      λ full. omega (
        arith,
        rw (clamp_stock_full stock max_stock full) at e,
        markup_none (g.max_price - g.avg_price) max_stock,
      ),
    )
