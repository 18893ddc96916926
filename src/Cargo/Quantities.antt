-- ===== src/Cargo/Quantities.antt =====
-- How much of a hold a caller may debit or credit: `AvailableIn`, `ConsumeIn`, `FitsIn`, `Add`.
use spaceempire_back.Prelude.{ℕ, ◌+◌, ◌-◌, ◌*◌, ◌/◌, ◌≤◌, ◌<◌, ◌≡◌, true, false, arith, ltb}
use native.Mathlib.Nat.{le-div_iff_mul-le}
use spaceempire_back.Prelude.Int.{ℤ, pos, pos_part, leb_ℤ, ltb_ℤ}
use spaceempire_back.Domain.{EntityRef}
use spaceempire_back.Store.Tables.{GoodsType, Db}
use spaceempire_back.Store.Tx.{ok, fail, no_space, insufficient_quantity}
use spaceempire_back.Store.Reads.{read_then}
use spaceempire_back.CargoRepo
use spaceempire_back.CargoRepo.{
  unowned_goods, cargo_key, find_goods_type, stack, take_stack, used_by,
}
use spaceempire_back.CargoRepo.Reads.{goods_type-ReadOnly, capacity-ReadOnly, used_space-ReadOnly}
use spaceempire_back.CargoRepo.Effects.{Loses, subtract-Loses, subtract-enough, subtract-short}
use spaceempire_back.Cargo.{
  consume_in, available_in, fits_in, fits_by_space, clamp_fits, whole_units, add_in,
}

available_in-read :
    (owner : EntityRef) (g : ℕ) (db : Db) {n : ℕ} {db' : Db}
    → available_in owner g db ≡ ok n db'
    → (gt : GoodsType) × (CargoRepo.goods_type g db ≡ ok gt db)
      × (n ≡ stack (cargo_key owner g unowned_goods) db.cargo)
unfolding available_in CargoRepo.quantity
available_in-read owner g db h =
    let (gt, read, rest) = read_then (CargoRepo.goods_type g) _ db (goods_type-ReadOnly g) h in
    (gt, read, cc)

-- What `AvailableIn` reports is the whole of what `ConsumeIn` can take: any positive quantity up
-- to it is debited from the owner's unowned stack, and nothing else changes; any quantity above
-- it is refused.
pub available_in-consume_in :
    (owner : EntityRef) (g : ℕ) (qty : ℤ) (db : Db) {n : ℕ} {db' : Db}
    → available_in owner g db ≡ ok n db'
    → leb_ℤ qty (pos 0) ≡ false
    → (pos_part qty ≤ n
        → (after : Db) × (consume_in owner g qty db ≡ ok tt after)
          × Loses (cargo_key owner g unowned_goods) (pos_part qty) db after)
      × (n < pos_part qty → consume_in owner g qty db ≡ fail insufficient_quantity db)
unfolding consume_in
available_in-consume_in owner g qty db {n = n} available positive =
    let (gt, read, whole) = available_in-read owner g db available in
    let q : ℕ = pos_part qty in
    (
      (λ le.
          let (after, e) =
            subtract-enough owner g q unowned_goods db (ground arith) (omega (arith, whole)) in
          (after, rw (positive, read) e, subtract-Loses owner g q unowned_goods db e)),
      λ lt. rw (positive, read) (subtract-short owner g q unowned_goods db (omega (arith, whole))),
    )

mul-le_of_le-div : (q n s : ℕ) → 0 < s → q ≤ n / s → q * s ≤ n
mul-le_of_le-div q n s p h = (le-div_iff_mul-le p).0 h

div_bounds : (n s : ℕ) → 0 < s → (n / s * s ≤ n) × (n < (n / s + 1) * s)
div_bounds n s h = (grind arith, grind arith)

module _ (c u s : ℕ) (limit : ℤ) (p : 0 < s) where
  fits-within :
      (q : ℕ) → 0 < q → leb_ℤ (pos q) (clamp_fits (whole_units c u s) limit) ≡ true → u + q * s ≤ c
  unfolding clamp_fits whole_units
  fits-within q pq h = ground (arith, mul-le_of_le-div q (c - u) s)

  fits-largest :
      ltb_ℤ (clamp_fits (whole_units c u s) limit) limit ≡ true
      → c < u + (pos_part (clamp_fits (whole_units c u s) limit) + 1) * s
  unfolding clamp_fits whole_units
  fits-largest h = ground (arith, div_bounds (c - u) s, div_bounds (u - c) s)

fits_by_space-read :
    (owner : EntityRef) (s : ℕ) (limit : ℤ) (db : Db) {fits : ℤ} {db' : Db}
    → fits_by_space owner s limit db ≡ ok fits db'
    → (c : ℕ) × (u : ℕ) × (CargoRepo.capacity owner db ≡ ok c db)
      × (CargoRepo.used_space owner db ≡ ok u db)
      × (fits ≡ clamp_fits (whole_units c u s) limit)
unfolding fits_by_space
fits_by_space-read owner s limit db h =
    let (c, c_read, h₁) = read_then (CargoRepo.capacity owner) _ db (capacity-ReadOnly owner) h in
    let (u, u_read, h₂) =
      read_then (CargoRepo.used_space owner) _ db (used_space-ReadOnly owner) h₁ in
    (c, u, c_read, u_read, cc)

-- Of goods that take space, `FitsIn` is the largest credit that `Add` takes: a positive quantity
-- up to it passes the capacity check of `Add`, and where it is below the caller's limit one unit
-- more is refused for want of space.
pub fits_in-add_in :
    (owner : EntityRef) (g : ℕ) (limit : ℤ) (db : Db) {gt : GoodsType} {fits : ℤ} {db' : Db}
    → CargoRepo.goods_type g db ≡ ok gt db
    → 0 < gt.space
    → fits_in owner g limit db ≡ ok fits db'
    → ((q : ℕ)
        → 0 < q
        → leb_ℤ (pos q) fits ≡ true
        → add_in owner g q db ≡ CargoRepo.add owner g q unowned_goods db)
      × (ltb_ℤ fits limit ≡ true → add_in owner g (pos_part fits + 1) db ≡ fail no_space db)
unfolding fits_in add_in
fits_in-add_in owner g limit db {gt = gt} {fits = fits} {db' = db'} read p h =
    let s : ℕ = gt.space in
    let by_space : fits_by_space owner s limit db ≡ ok fits db' = ground arith in
    let (c, u, c_read, u_read, whole) = fits_by_space-read owner s limit db by_space in
    (
      (λ q pq le.
          let fit : ltb c (u + q * s) ≡ false =
            ground (arith, fits-within c u s limit p q pq (rw whole at le)) in
          rw (read, c_read, u_read, fit)),
      λ less.
          let over : ltb c (u + (pos_part fits + 1) * s) ≡ true =
            ground (arith, whole, fits-largest c u s limit p (rw whole at less)) in
          rw (read, c_read, u_read, over),
    )
