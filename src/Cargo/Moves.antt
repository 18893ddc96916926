-- ===== src/Cargo/Moves.antt =====
-- internal/cargo/service.go: the goods of the world under `Move`.
use spaceempire_back.Prelude.{ℕ, ◌+◌, ◌*◌, ◌≤◌, ◌≡◌, ◌≢◌, ap, false, ◌&&◌, arith, ◌==◌}
use spaceempire_back.Prelude.Int.{ℤ, pos, pos_part, leb_ℤ}
use spaceempire_back.Domain.{EntityRef, ref_eq, ref_eq_refl, ref_eq_sym}
use spaceempire_back.Store.Tables.{CargoKey, Db, key_eq}
use spaceempire_back.Store.Tx.{ok, done}
use spaceempire_back.CargoRepo
use spaceempire_back.CargoRepo.{cargo_key, unowned_goods, used_by, space_of}
use spaceempire_back.CargoRepo.Effects.{CargoOnly}
use spaceempire_back.CargoRepo.Weights.{
  weigh, total_of, held, deposit, goods_weight, hold_weight, stack_weight, space_weight,
  used_by-weigh, space_of_known,
}
use spaceempire_back.Cargo.{depositor_at, move}
use spaceempire_back.Cargo.Transfers.{Transfers, move-Transfers}

module _ (actor : ℕ) (from to : EntityRef) (g q : ℕ) (db db' : Db)
    (t : Transfers actor from to g q db db') where
  total_of-Transfers : (h : ℕ) → total_of h db'.cargo ≡ total_of h db.cargo
  unfolding total_of
  total_of-Transfers h =
      ground (arith, t.draw.sums (goods_weight h), t.gain.sums (goods_weight h), t.draw.whole)

  held-Transfers_from : ref_eq from to ≡ false → held from g db'.cargo + q ≡ held from g db.cargo
  unfolding held
  held-Transfers_from apart = ground (
    arith,
    t.draw.sums (hold_weight from g),
    t.gain.sums (hold_weight from g),
    t.draw.whole,
    ref_eq_refl from,
    ref_eq_sym from to,
  )

  held-Transfers_to : ref_eq from to ≡ false → held to g db'.cargo ≡ held to g db.cargo + q
  unfolding held
  held-Transfers_to apart = ground (
    arith,
    t.draw.sums (hold_weight to g),
    t.gain.sums (hold_weight to g),
    t.draw.whole,
    ref_eq_refl to,
  )

  held-Transfers_other :
      (o : EntityRef) (h : ℕ)
      → (ref_eq from o && g == h) ≡ false
      → (ref_eq to o && g == h) ≡ false
      → held o h db'.cargo ≡ held o h db.cargo
  unfolding held
  held-Transfers_other o h a b =
      ground (arith, t.draw.sums (hold_weight o h), t.gain.sums (hold_weight o h))

  deposit-Transfers :
      (k : CargoKey)
      → k.goods_owner ≢ actor
      → k.goods_owner ≢ unowned_goods
      → deposit k db'.cargo ≡ deposit k db.cargo
  unfolding deposit key_eq depositor_at
  deposit-Transfers k a b =
      ground (arith, t.draw.sums (stack_weight k), t.gain.sums (stack_weight k))

  used_by-Transfers : ref_eq from to ≡ false → used_by db'.goods_types to db'.cargo ≤ t.room
  used_by-Transfers apart =
      let types : db'.goods_types ≡ db.goods_types = ap (λ (d : Db). d.goods_types) t.frame in
      let w : CargoKey → ℕ = space_weight db.goods_types to in
      let out : w (cargo_key from g actor) ≡ 0 = rw apart in
      let into : w (cargo_key to g (depositor_at to actor)) ≡ t.goods.space =
        rw (ref_eq_refl to) (space_of_known db.goods_types g t.goods t.known) in
      let drawn : weigh w t.mid.cargo + 0 * t.draw.own_part + 0 * t.draw.free_part
          ≡ weigh w db.cargo =
        rw out at (t.draw.sums w) in
      let gained : weigh w db'.cargo ≡ weigh w t.mid.cargo + t.goods.space * q =
        rw into at (t.gain.sums w) in
      rw (types, used_by-weigh db.goods_types to db'.cargo)
        (omega (arith, drawn, gained, t.fits, used_by-weigh db.goods_types to db.cargo))

module _ (actor : ℕ) (from to : EntityRef) (g : ℕ) (qty : ℤ) (db : Db) {u : Unit {0}} {db' : Db}
    (moved : move actor from to g qty db ≡ (done u, db')) where
  -- A successful transfer creates and destroys nothing: of every goods type there is as much
  -- after it as before.
  pub total_of-move : (h : ℕ) → total_of h db'.cargo ≡ total_of h db.cargo
  total_of-move h =
      let (_, _, t) = move-Transfers actor from to g qty db moved in
      total_of-Transfers actor from to g (pos_part qty) db db' t h

  -- A successful transfer of a quantity is of a positive one. The source holds exactly that much
  -- less of the goods type, the destination exactly that much more, every other holding is what
  -- it was, and no other table has changed.
  pub move_exact :
      (leb_ℤ qty (pos 0) ≡ false)
      × (held from g db'.cargo + pos_part qty ≡ held from g db.cargo)
      × (held to g db'.cargo ≡ held to g db.cargo + pos_part qty)
      × ((o : EntityRef) (h : ℕ)
          → (ref_eq from o && g == h) ≡ false
          → (ref_eq to o && g == h) ≡ false
          → held o h db'.cargo ≡ held o h db.cargo)
      × CargoOnly db db'
  move_exact =
      let (positive, apart, t) = move-Transfers actor from to g qty db moved in
      (
        positive,
        held-Transfers_from actor from to g (pos_part qty) db db' t apart,
        held-Transfers_to actor from to g (pos_part qty) db db' t apart,
        held-Transfers_other actor from to g (pos_part qty) db db' t,
        t.frame,
      )

  -- A successful transfer leaves every stack that another player deposited as it was, wherever it
  -- lies.
  pub move-keeps_deposits :
      (k : CargoKey)
      → k.goods_owner ≢ actor
      → k.goods_owner ≢ unowned_goods
      → deposit k db'.cargo ≡ deposit k db.cargo
  move-keeps_deposits k a b =
      let (_, _, t) = move-Transfers actor from to g qty db moved in
      deposit-Transfers actor from to g (pos_part qty) db db' t k a b

  -- After a successful transfer the destination's goods fit into its hold.
  pub move_fits :
      (room : ℕ) × (CargoRepo.capacity to db ≡ ok room db)
      × (used_by db'.goods_types to db'.cargo ≤ room)
  move_fits =
      let (_, apart, t) = move-Transfers actor from to g qty db moved in
      (t.room, t.capacity, used_by-Transfers actor from to g (pos_part qty) db db' t apart)
