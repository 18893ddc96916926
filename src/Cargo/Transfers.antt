-- ===== src/Cargo/Transfers.antt =====
-- The parts of a successful `moveIn`: the checks that passed, the draw and the deposit.
use spaceempire_back.Prelude.{
  ℕ, ◌+◌, ◌*◌, ◌≤◌, ◌≡◌, false, some, arith, ltb, ltb→le, Bool-cases, inl, inr,
}
use spaceempire_back.Prelude.Int.{ℤ, pos, pos_part, leb_ℤ}
use spaceempire_back.Domain.{EntityRef, ref_eq}
use spaceempire_back.Store.Tables.{GoodsType, Db}
use spaceempire_back.Store.Tx.{ok, done, no_space, and_then-eq-ok, run_tx, run_tx-done}
use spaceempire_back.Store.Reads.{read_then, raise_if_then}
use spaceempire_back.CargoRepo
use spaceempire_back.CargoRepo.{cargo_key, find_goods_type, used_by}
use spaceempire_back.CargoRepo.Effects.{CargoOnly, CargoOnly-trans, Gains, add-Gains}
use spaceempire_back.CargoRepo.Reads.{
  goods_type-found, goods_type-ReadOnly, capacity-ReadOnly, used_space-ReadOnly, used_space-read,
}
use spaceempire_back.Cargo.{subtract_from_source, depositor_at, move_in, move}
use spaceempire_back.Cargo.Draws.{Draws, subtract_from_source-Draws}

pub record Transfers (actor : ℕ) (from to : EntityRef) (g q : ℕ) (db db' : Db) : Type 0 where
  pub goods : GoodsType
  pub room : ℕ
  pub mid : Db
  pub known : find_goods_type g db.goods_types ≡ some goods
  pub capacity : CargoRepo.capacity to db ≡ ok room db
  pub fits : used_by db.goods_types to db.cargo + q * goods.space ≤ room
  pub draw : Draws actor from g q db mid
  pub gain : Gains (cargo_key to g (depositor_at to actor)) q mid db'
  pub frame : CargoOnly db db'

pub move_in-Transfers :
    (actor : ℕ) (from to : EntityRef) (g q : ℕ) (db : Db) {u : Unit {0}} {db' : Db}
    → move_in actor from to g q db ≡ ok u db'
    → Transfers actor from to g q db db'
unfolding move_in
move_in-Transfers actor from to g q db {db' = db'} h =
    let (gt, gt_read, h₁) = read_then (CargoRepo.goods_type g) _ db (goods_type-ReadOnly g) h in
    let (room, room_read, h₂) = read_then (CargoRepo.capacity to) _ db (capacity-ReadOnly to) h₁ in
    let (used, used_read, h₃) =
      read_then (CargoRepo.used_space to) _ db (used_space-ReadOnly to) h₂ in
    let (fit, h₄) = raise_if_then (ltb room (used + q * gt.space)) no_space _ db h₃ in
    let (v, mid, drawn, added) = and_then-eq-ok (subtract_from_source actor from g q db) _ h₄ in
    let draw : Draws actor from g q db mid = subtract_from_source-Draws actor from g db q drawn in
    let gain : Gains (cargo_key to g (depositor_at to actor)) q mid db' =
      add-Gains to g q (depositor_at to actor) mid added in
    record {
      goods = gt;
      room = room;
      mid = mid;
      known = (goods_type-found g db gt db gt_read).0;
      capacity = room_read;
      fits = omega (arith, ltb→le room _ fit, used_space-read to db used db used_read);
      draw = draw;
      gain = gain;
      frame = CargoOnly-trans db mid db' draw.frame gain.frame;
    }

-- What a successful `Move` passed and did.
pub move-Transfers :
    (actor : ℕ) (from to : EntityRef) (g : ℕ) (qty : ℤ) (db : Db) {u : Unit {0}} {db' : Db}
    → move actor from to g qty db ≡ (done u, db')
    → (leb_ℤ qty (pos 0) ≡ false)
      × (ref_eq from to ≡ false)
      × Transfers actor from to g (pos_part qty) db db'
unfolding move
move-Transfers actor from to g qty db {u = u} {db' = db'} h =
    elim (Bool-cases (leb_ℤ qty (pos 0))) [
      | inl bad ↦ ground arith
      | inr positive ↦ elim (Bool-cases (ref_eq from to)) [
        | inl same ↦ ground arith
        | inr apart ↦
            let s : run_tx (move_in actor from to g (pos_part qty)) db ≡ (done u, db') =
              ground arith in
            (
              positive,
              apart,
              move_in-Transfers actor from to g (pos_part qty) db (run_tx-done _ db s),
            )
      ]
    ]
