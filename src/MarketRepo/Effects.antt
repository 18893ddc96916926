-- ===== src/MarketRepo/Effects.antt =====
-- The stocks of all stations under `AdjustStock`.
use spaceempire_back.Prelude.{
  ℕ, ◌+◌, ◌*◌, ◌≡◌, refl, true, List, [], ◌∷◌, arith, ◌==◌, Bool-cases, inl, inr, ==→≡, mul_change,
  &&_true,
}
use spaceempire_back.Prelude.Int.{ℤ, pos_part, neg_part}
use spaceempire_back.Domain.{EntityRef, ref_eq, ref_eq→≡}
use spaceempire_back.Store.Tables.{MarketEntry, Db}
use spaceempire_back.Store.Update.{updated, Update-cases}
use spaceempire_back.Store.Tx.{ok}
use spaceempire_back.MarketRepo.{is_entry, is_station_kind, update_stock, shift_stock, adjust_stock}

abbrev pub weigh_stock : (EntityRef → ℕ → ℕ) → List MarketEntry → ℕ
weigh_stock w [] = 0
weigh_stock w (e ∷ es) = w e.owner e.goods_type * e.stock + weigh_stock w es

-- Only the table `station_goods` differs.
abbrev pub MarketOnly : Db → Db → Type 0
MarketOnly db db' = db' ≡ record db { station_goods = db'.station_goods }

at_entry :
    (w : EntityRef → ℕ → ℕ) (owner : EntityRef) (g : ℕ) (e : MarketEntry)
    → is_entry owner g e ≡ true
    → w e.owner e.goods_type ≡ w owner g
at_entry w owner g e h =
    let (a, b) = &&_true (ref_eq e.owner owner) (e.goods_type == g) h in
    rw (ref_eq→≡ e.owner owner a, ==→≡ e.goods_type g b)

weigh_stock-update_stock :
    (w : EntityRef → ℕ → ℕ) (owner : EntityRef) (g : ℕ) (delta : ℤ) (es : List MarketEntry) {n : ℕ}
    {es' : List MarketEntry}
    → update_stock owner g delta es ≡ updated n es'
    → weigh_stock w es' + w owner g * neg_part delta ≡ weigh_stock w es + w owner g * pos_part delta
unfolding update_stock
weigh_stock-update_stock w owner g delta [] h = cc
weigh_stock-update_stock w owner g delta (e ∷ es) h = elim (Bool-cases (is_entry owner g e)) [
  | inl here ↦ ground (
    arith,
    at_entry w owner g e here,
    mul_change (w owner g) e.stock (pos_part delta) (neg_part delta),
  )
  | inr later ↦ elim (Update-cases (update_stock owner g delta es)) [
    | inl x ↦ ground arith
    | inr (inl x) ↦ ground arith
    | inr (inr (m, rest, x)) ↦ ground (arith, weigh_stock-update_stock w owner g delta es x)
  ]
]

-- `delta` came to one stock, and nothing else changed.
pub record Stocks (owner : EntityRef) (g : ℕ) (delta : ℤ) (db db' : Db) : Type 0 where
  pub sums :
      (w : EntityRef → ℕ → ℕ)
      → weigh_stock w db'.station_goods + w owner g * neg_part delta
        ≡ weigh_stock w db.station_goods + w owner g * pos_part delta
  pub frame : MarketOnly db db'

shift_stock-Stocks :
    (owner : EntityRef) (g : ℕ) (delta : ℤ) (db : Db) {n : ℕ} {db' : Db}
    → shift_stock owner g delta db ≡ ok n db'
    → Stocks owner g delta db db'
unfolding shift_stock
shift_stock-Stocks owner g delta db {db' = db'} h =
    elim (Update-cases (update_stock owner g delta db.station_goods)) [
      | inl e ↦ ground arith
      | inr (inl e) ↦ ground arith
      | inr (inr (m, rows, e)) ↦
          let after : db' ≡ record db { station_goods = rows } = ground arith in
          rw after (record {
            sums = λ w. weigh_stock-update_stock w owner g delta db.station_goods e;
            frame = refl;
          })
    ]

pub adjust_stock-Stocks :
    (owner : EntityRef) (g : ℕ) (delta : ℤ) (db : Db) {n : ℕ} {db' : Db}
    → adjust_stock owner g delta db ≡ ok n db'
    → Stocks owner g delta db db'
unfolding adjust_stock
adjust_stock-Stocks owner g delta db {n = n} {db' = db'} h =
    elim (Bool-cases (is_station_kind owner.kind)) [
      | inl yes_ ↦
          let s : shift_stock owner g delta db ≡ ok n db' = ground arith in
          shift_stock-Stocks owner g delta db s
      | inr no_ ↦ ground arith
    ]
