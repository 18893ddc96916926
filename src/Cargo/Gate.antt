-- ===== src/Cargo/Gate.antt =====
-- internal/cargo/service.go: the dock gate of `MoveByPlayer`.
use spaceempire_back.Prelude.{
  ℕ, ◌≡◌, refl, Option, none, some, ◌⊎◌, ◌&&◌, &&_true, ◌∙◌, ap, subst, true, arith, Bool-cases,
  Option-cases, inl, inr,
}
use spaceempire_back.Prelude.Int.{ℤ, pos, pos_part, leb_ℤ}
use spaceempire_back.Domain.{
  EntityKind, ship, station, trade_station, EntityRef, ref_eq, ref_eq→≡, ref_eq_refl,
}
use spaceempire_back.Store.Tables.{Ship, Db}
use spaceempire_back.Store.Tx.{
  ok, done, and_then-eq-ok, run_tx, run_tx-done, run_tx_of_ok, invalid_transfer, refuse,
}
use spaceempire_back.CargoRepo
use spaceempire_back.CargoRepo.{ShipDock, find_ship, dock_of}
use spaceempire_back.CargoRepo.Reads.{ship_dock-found}
use spaceempire_back.Cargo.{
  is_ship, is_transfer_station, check_docked, authorize_docked, transfer_ends, move_docked, move_in,
  move, move_by_player,
}

-- The ship is the actor's and docked to `at`.
pub record IsDocked (actor ship_id : ℕ) (at : EntityRef) (db : Db) : Type 0 where
  pub vessel : Ship
  pub found : find_ship ship_id db.ships ≡ some vessel
  pub owned : vessel.player_id ≡ actor
  pub docked : vessel.docked ≡ some at

check_docked-ok :
    (dock : ShipDock) (actor : ℕ) (at : EntityRef) (db : Db) {u : Unit {0}} {db' : Db}
    → check_docked dock actor at db ≡ ok u db'
    → (dock.player_id ≡ actor) × (dock.docked ≡ some at) × (db' ≡ db)
unfolding check_docked
check_docked-ok dock actor at db h = elim (Option-cases dock.docked) [
  | inl free ↦ ground arith
  | inr (r, e) ↦ ground (arith, ref_eq→≡ r at)
]

dock_of-some :
    (o : Option Ship) (d : ShipDock)
    → dock_of o ≡ some d
    → (s : Ship) × (o ≡ some s) × (s.player_id ≡ d.player_id) × (s.docked ≡ d.docked)
dock_of-some none d h = cc
dock_of-some (some s) d h = (s, refl, ground arith, ground arith)

pub authorize_docked-IsDocked :
    (actor ship_id : ℕ) (at : EntityRef) (db : Db) {u : Unit {0}} {db' : Db}
    → authorize_docked actor ship_id at db ≡ ok u db'
    → IsDocked actor ship_id at db × (db' ≡ db)
unfolding authorize_docked
authorize_docked-IsDocked actor ship_id at db h =
    let (dock, mid, read, checked) = and_then-eq-ok (CargoRepo.ship_dock ship_id db) _ h in
    let (found, same) = ship_dock-found ship_id db dock mid read in
    let (owned, docked, same') = check_docked-ok dock actor at mid checked in
    let (s, is_s, p, d) = dock_of-some (find_ship ship_id db.ships) dock found in
    (record { vessel = s; found = is_s; owned = cc; docked = cc }, cc)

pub IsDocked-authorize_docked :
    (actor ship_id : ℕ) (at : EntityRef) (db : Db)
    → IsDocked actor ship_id at db
    → authorize_docked actor ship_id at db ≡ ok tt db
unfolding authorize_docked CargoRepo.ship_dock check_docked
IsDocked-authorize_docked actor ship_id at db d =
    ground (arith, d.found, d.owned, d.docked, ref_eq_refl at)

module _ (actor ship_id : ℕ) (at from to : EntityRef) (g q : ℕ) (db : Db) where
  move_docked-IsDocked :
      {u : Unit {0}} {db' : Db}
      → move_docked actor (some (ship_id, at)) from to g q db ≡ (done u, db')
      → IsDocked actor ship_id at db × (run_tx (move_in actor from to g q) db ≡ (done u, db'))
  unfolding move_docked
  move_docked-IsDocked {u = u} {db' = db'} h =
      let (v, mid, gate, moved) =
        and_then-eq-ok (authorize_docked actor ship_id at db) (λ _. move_in actor from to g q)
          (run_tx-done _ db h) in
      let (d, same) = authorize_docked-IsDocked actor ship_id at db gate in
      (d, run_tx_of_ok (move_in actor from to g q) db (rw same at moved))

  IsDocked-move_docked :
      IsDocked actor ship_id at db
      → move_docked actor (some (ship_id, at)) from to g q db
        ≡ run_tx (move_in actor from to g q) db
  unfolding move_docked run_tx
  IsDocked-move_docked d = rw (IsDocked-authorize_docked actor ship_id at db d)

move_docked-none :
    (actor : ℕ) (from to : EntityRef) (g q : ℕ) (db : Db)
    → move_docked actor none from to g q db ≡ refuse invalid_transfer db
unfolding move_docked
move_docked-none actor from to g q db = refl

-- One end is the ship and the other one is `at`, a hold of a station.
abbrev pub HasEnds : EntityRef → EntityRef → ℕ → EntityRef → Type 0
HasEnds from to ship_id at =
    (((from ≡ record { kind = ship; id = ship_id }) × (to ≡ at))
      ⊎ ((to ≡ record { kind = ship; id = ship_id }) × (from ≡ at)))
    × ((at.kind ≡ station) ⊎ (at.kind ≡ trade_station))

is_ship-eq : (k : EntityKind) → is_ship k ≡ true → k ≡ ship
unfolding is_ship
is_ship-eq ship h = refl
is_ship-eq _ h = cc

is_transfer_station-eq :
    (k : EntityKind) → is_transfer_station k ≡ true → (k ≡ station) ⊎ (k ≡ trade_station)
unfolding is_transfer_station
is_transfer_station-eq station h = inl refl
is_transfer_station-eq trade_station h = inr refl
is_transfer_station-eq _ h = cc

transfer_ends-HasEnds :
    (from to : EntityRef) {ship_id : ℕ} {at : EntityRef}
    → transfer_ends from to ≡ some (ship_id, at)
    → HasEnds from to ship_id at
unfolding transfer_ends
transfer_ends-HasEnds from to {ship_id} {at} h =
    elim (Bool-cases (is_ship from.kind && is_transfer_station to.kind)) [
      | inl out ↦
          let (s, t) = &&_true _ _ out in
          let (i, r) = ends_parts from.id to (rw out at h) in
          (
            inl (ship_at from s i, r),
            subst (λ x. (x.kind ≡ station) ⊎ (x.kind ≡ trade_station)) r
                (is_transfer_station-eq to.kind t),
          )
      | inr not_out ↦ elim (Bool-cases (is_transfer_station from.kind && is_ship to.kind)) [
        | inl back ↦
            let (t, s) = &&_true _ _ back in
            let (i, r) = ends_parts to.id from (rw (not_out, back) at h) in
            (
              inr (ship_at to s i, r),
              subst (λ x. (x.kind ≡ station) ⊎ (x.kind ≡ trade_station)) r
                  (is_transfer_station-eq from.kind t),
            )
        | inr neither ↦ ground (arith, rw (not_out, neither) at h)
      ]
    ]
  where
    ends_parts :
        (a : ℕ) (b : EntityRef) {ship_id : ℕ} {at : EntityRef}
        → ◌≡◌ {A = Option (ℕ × EntityRef)} (some (a, b)) (some (ship_id, at))
        → (a ≡ ship_id) × (b ≡ at)
    ends_parts a b h = ground arith

    ship_at :
        (r : EntityRef) {i : ℕ}
        → is_ship r.kind ≡ true
        → r.id ≡ i
        → r ≡ record { kind = ship; id = i }
    ship_at r {i} s e =
        ap {B = EntityRef} (λ k. record { kind = k; id = r.id }) (is_ship-eq r.kind s)
        ∙ ap {B = EntityRef} (λ n. record { kind = ship; id = n }) e

-- In a successful transfer by a player one end was a ship, the other a station or a trade
-- station, the ship was the actor's and docked there, and the transfer did what the engine's own
-- does.
pub move_by_player-authorized :
    (actor : ℕ) (from to : EntityRef) (g : ℕ) (qty : ℤ) (db : Db) {u : Unit {0}} {db' : Db}
    → move_by_player actor from to g qty db ≡ (done u, db')
    → (ship_id : ℕ) × (at : EntityRef) × HasEnds from to ship_id at
      × IsDocked actor ship_id at db
      × (move actor from to g qty db ≡ (done u, db'))
unfolding move_by_player move
move_by_player-authorized actor from to g qty db {u = u} {db' = db'} h =
    elim (Bool-cases (leb_ℤ qty (pos 0))) [
      | inl bad ↦ ground arith
      | inr positive ↦ elim (Bool-cases (ref_eq from to)) [
        | inl same ↦ ground arith
        | inr apart ↦ elim (Option-cases (transfer_ends from to)) [
          | inl none_ ↦ ground (arith, move_docked-none actor from to g (pos_part qty) db)
          | inr ((ship_id, at), ends) ↦
              let gated : move_docked actor (some (ship_id, at)) from to g (pos_part qty) db
                  ≡ (done u, db') =
                ground arith in
              let (d, moved) =
                move_docked-IsDocked actor ship_id at from to g (pos_part qty) db gated in
              (ship_id, at, transfer_ends-HasEnds from to ends, d, rw (positive, apart) moved)
        ]
      ]
    ]

-- To the owner of a ship that is docked to the station end, the gate refuses nothing that the
-- engine's own transfer would do.
pub move_by_player-docked :
    (actor : ℕ) (from to : EntityRef) (g : ℕ) (qty : ℤ) (db : Db) (ship_id : ℕ) (at : EntityRef)
    → transfer_ends from to ≡ some (ship_id, at)
    → IsDocked actor ship_id at db
    → move_by_player actor from to g qty db ≡ move actor from to g qty db
unfolding move_by_player move
move_by_player-docked actor from to g qty db ship_id at ends d =
    rw (ends, IsDocked-move_docked actor ship_id at from to g (pos_part qty) db d)
