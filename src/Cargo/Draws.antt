-- ===== src/Cargo/Draws.antt =====
-- What `subtractFromSource` takes, and from which deposits.
use spaceempire_back.Prelude.{
  ℕ, ◌+◌, ◌-◌, ◌*◌, ◌≤◌, ◌≡◌, refl, not, ◌||◌, ◌==◌, ltb, if◌then◌else◌, arith, inl, inr,
  Bool-cases,
}
use spaceempire_back.Prelude.Int.{ℤ, pos, ltb_ℤ, wrap_i64}
use spaceempire_back.Domain.{EntityRef}
use spaceempire_back.Store.Tables.{CargoKey, Db}
use spaceempire_back.Store.Tx.{ok, and_then-eq-ok}
use spaceempire_back.CargoRepo
use spaceempire_back.CargoRepo.{unowned_goods, cargo_key, stack}
use spaceempire_back.CargoRepo.Weights.{weigh}
use spaceempire_back.CargoRepo.Effects.{CargoOnly, CargoOnly-trans, Loses, subtract-Loses}
use spaceempire_back.Cargo.{
  take_own, take_free, is_station_like, short_of, draw_both, split_draw, subtract_from_source,
}

Loses-nothing : (k : CargoKey) (db : Db) → Loses k 0 db db
Loses-nothing k db = record { sums = λ w. omega arith; frame = refl }

-- `q` units left the hold `from`: a part from the actor's own deposit, the rest from the unowned
-- pool.
pub record Draws (actor : ℕ) (from : EntityRef) (g q : ℕ) (db db' : Db) : Type 0 where
  pub own_part : ℕ
  pub free_part : ℕ
  pub whole : own_part + free_part ≡ q
  pub sums :
      (w : CargoKey → ℕ)
      → weigh w db'.cargo
          + w (cargo_key from g actor) * own_part
          + w (cargo_key from g unowned_goods) * free_part
        ≡ weigh w db.cargo
  pub frame : CargoOnly db db'

module _ (from : EntityRef) (g q actor : ℕ) (db : Db) {u : Unit {0}} {db' : Db} where
  take_own-Loses : take_own from g q actor db ≡ ok u db' → Loses (cargo_key from g actor) q db db'
  unfolding take_own
  take_own-Loses h = elim (Bool-cases (ltb 0 q)) [
    | inl more ↦
        let s : CargoRepo.subtract from g q actor db ≡ ok u db' = ground arith in
        subtract-Loses from g q actor db s
    | inr nothing ↦
        let zero : q ≡ 0 = ground arith in
        let same : db' ≡ db = ground arith in
        rw (zero, same) (Loses-nothing (cargo_key from g actor) db)
  ]

  take_free-Loses :
      take_free from g q db ≡ ok u db' → Loses (cargo_key from g unowned_goods) q db db'
  unfolding take_free
  take_free-Loses h = elim (Bool-cases (ltb 0 q)) [
    | inl more ↦
        let s : CargoRepo.subtract from g q unowned_goods db ≡ ok u db' = ground arith in
        subtract-Loses from g q unowned_goods db s
    | inr nothing ↦
        let zero : q ≡ 0 = ground arith in
        let same : db' ≡ db = ground arith in
        rw (zero, same) (Loses-nothing (cargo_key from g unowned_goods) db)
  ]

  short_of_fails : (n : ℤ) → short_of actor from g n db ≡ ok u db' → ⊥
  unfolding short_of CargoRepo.has_others_goods
  short_of_fails n h = ground arith

module _ (actor : ℕ) (from : EntityRef) (g : ℕ) (db : Db) {u : Unit {0}} {db' : Db} where
  draw_both-Draws :
      (a q : ℕ) → a ≤ q → draw_both actor from g a q db ≡ ok u db' → Draws actor from g q db db'
  unfolding draw_both
  draw_both-Draws a q le h =
      let (v, mid, first, second) =
        and_then-eq-ok (take_own from g a actor db) (λ _. take_free from g (q - a)) h in
      let own : Loses (cargo_key from g actor) a db mid = take_own-Loses from g a actor db first in
      let free : Loses (cargo_key from g unowned_goods) (q - a) mid db' =
        take_free-Loses from g (q - a) actor mid second in
      record {
        own_part = a;
        free_part = q - a;
        whole = omega arith;
        sums = λ w. omega (arith, own.sums w, free.sums w);
        frame = CargoOnly-trans db mid db' own.frame free.frame;
      }

  split_draw-Draws : (q : ℕ) → split_draw actor from g q db ≡ ok u db' → Draws actor from g q db db'
  unfolding split_draw CargoRepo.quantity
  split_draw-Draws q h =
      let own : ℕ = stack (cargo_key from g actor) db.cargo in
      let free : ℕ = stack (cargo_key from g unowned_goods) db.cargo in
      elim (Bool-cases (ltb_ℤ (wrap_i64 (own + free)) (pos q))) [
        | inl short ↦
            let s : short_of actor from g (wrap_i64 (own + free)) db ≡ ok u db' = ground arith in
            absurd (short_of_fails from g q actor db (wrap_i64 (own + free)) s)
        | inr enough ↦
            let a : ℕ = if ltb q own then q else own in
            let both : draw_both actor from g a q db ≡ ok u db' = ground arith in
            draw_both-Draws a q (ground arith) both
      ]

  pub subtract_from_source-Draws :
      (q : ℕ) → subtract_from_source actor from g q db ≡ ok u db' → Draws actor from g q db db'
  unfolding subtract_from_source
  subtract_from_source-Draws q h =
      elim (Bool-cases (not (is_station_like from.kind) || actor == unowned_goods)) [
        | inl plain ↦
            let s : CargoRepo.subtract from g q unowned_goods db ≡ ok u db' = ground arith in
            let free : Loses (cargo_key from g unowned_goods) q db db' =
              subtract-Loses from g q unowned_goods db s in
            record {
              own_part = 0;
              free_part = q;
              whole = omega arith;
              sums = λ w. omega (arith, free.sums w);
              frame = free.frame;
            }
        | inr split ↦
            let s : split_draw actor from g q db ≡ ok u db' = ground arith in split_draw-Draws q s
      ]
