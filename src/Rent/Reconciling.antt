-- ===== src/Rent/Reconciling.antt =====
-- internal/economy/rent/service.go: Reconcile.
use spaceempire_back.Prelude.{
  ℕ, ◌+◌, ◌≡◌, ap, subst, sym, true, Option, none, some, List, [], ◌∷◌, ◌++◌, Bool-cases, inl, inr,
  All, leb,
}
use spaceempire_back.Domain.{EntityKind, station, shipyard, trade_station}
use spaceempire_back.Store.Tables.{Rent, Station, Shipyard, TradeStation, Db}
use spaceempire_back.Store.Tx.{done}
use spaceempire_back.StationsRepo.{
  OwnedStatic, owned, insert_by_id, order_by_id, owned_stations, owned_shipyards,
  owned_trade_stations, player_owned,
}
use spaceempire_back.RentsRepo.{has_rent}
use spaceempire_back.Rent.{Config, reconcile}
use spaceempire_back.Rent.Ensuring.{Covered, Adds, ensure_all-Covered, ensure_all_again}

Covered-split :
    (rs : List Rent) (xs ys : List OwnedStatic)
    → Covered (xs ++ ys) rs
    → Covered xs rs × Covered ys rs
Covered-split rs [] ys h = (tt, h)
Covered-split rs (x ∷ xs) ys (first, h) =
    let (left, right) = Covered-split rs xs ys h in ((first, left), right)

Covered-insert :
    (rs : List Rent) (o : OwnedStatic) (xs : List OwnedStatic)
    → Covered (insert_by_id o xs) rs
    → (has_rent o.ref rs ≡ true) × Covered xs rs
unfolding insert_by_id
Covered-insert rs o [] h = h
Covered-insert rs o (x ∷ xs) h = elim (Bool-cases (leb o.ref.id x.ref.id)) [
  | inl before ↦ rw before at h
  | inr after ↦
      let (first, rest) = rw after at h in
      let (own, others) = Covered-insert rs o xs rest in (own, (first, others))
]

Covered-order :
    (rs : List Rent) (os : List OwnedStatic) → Covered (order_by_id os) rs → Covered os rs
unfolding order_by_id
Covered-order rs [] h = tt
Covered-order rs (o ∷ os) h =
    let (own, others) = Covered-insert rs o (order_by_id os) h in (own, Covered-order rs os others)

-- If it has an owner, a rent of it is owed.
abbrev pub OwesIfOwned : List Rent → EntityKind → ℕ → Option ℕ → Type 0
OwesIfOwned rs k i none = Unit
OwesIfOwned rs k i (some _) = has_rent (record { kind = k; id = i }) rs ≡ true

module _ (rs : List Rent) where
  owned-Covered :
      (k : EntityKind) (i : ℕ) (owner : Option ℕ) (os : List OwnedStatic)
      → Covered (owned k i owner os) rs
      → OwesIfOwned rs k i owner × Covered os rs
  owned-Covered k i none os h = (tt, h)
  owned-Covered k i (some p) os h = h

  owned_stations-Covered :
      (ss : List Station)
      → Covered (owned_stations ss) rs
      → All (λ s. OwesIfOwned rs station s.id s.owner_id) ss
  unfolding owned_stations
  owned_stations-Covered [] h = tt
  owned_stations-Covered (s ∷ ss) h =
      let (own, others) = owned-Covered station s.id s.owner_id (owned_stations ss) h in
      (own, owned_stations-Covered ss others)

  owned_shipyards-Covered :
      (ss : List Shipyard)
      → Covered (owned_shipyards ss) rs
      → All (λ s. OwesIfOwned rs shipyard s.id s.owner_id) ss
  unfolding owned_shipyards
  owned_shipyards-Covered [] h = tt
  owned_shipyards-Covered (s ∷ ss) h =
      let (own, others) = owned-Covered shipyard s.id s.owner_id (owned_shipyards ss) h in
      (own, owned_shipyards-Covered ss others)

  owned_trade_stations-Covered :
      (ss : List TradeStation)
      → Covered (owned_trade_stations ss) rs
      → All (λ s. OwesIfOwned rs trade_station s.id s.owner_id) ss
  unfolding owned_trade_stations
  owned_trade_stations-Covered [] h = tt
  owned_trade_stations-Covered (s ∷ ss) h =
      let (own, others) = owned-Covered trade_station s.id s.owner_id (owned_trade_stations ss) h in
      (own, owned_trade_stations-Covered ss others)

-- Who owns, owes; the rents that there were stay, and no other table changed.
pub record Reconciled (db db' : Db) : Type 0 where
  pub stations : All (λ s. OwesIfOwned db'.rents station s.id s.owner_id) db'.stations
  pub shipyards : All (λ s. OwesIfOwned db'.rents shipyard s.id s.owner_id) db'.shipyards
  pub trade_stations :
      All (λ s. OwesIfOwned db'.rents trade_station s.id s.owner_id) db'.trade_stations
  pub adds : Adds db db'

abbrev objects : Db → List OwnedStatic
objects db =
    order_by_id (owned_stations db.stations)
    ++ order_by_id (owned_shipyards db.shipyards)
    ++ order_by_id (owned_trade_stations db.trade_stations)

Covered-Reconciled :
    (db db' : Db) → Adds db db' → Covered (objects db') db'.rents → Reconciled db db'
Covered-Reconciled db db' adds h =
    let (left, third) =
      Covered-split db'.rents
        (order_by_id (owned_stations db'.stations) ++ order_by_id (owned_shipyards db'.shipyards))
        (order_by_id (owned_trade_stations db'.trade_stations)) h in
    let (first, second) =
      Covered-split db'.rents (order_by_id (owned_stations db'.stations))
        (order_by_id (owned_shipyards db'.shipyards)) left in
    record {
      stations = owned_stations-Covered db'.rents db'.stations (Covered-order db'.rents _ first);
      shipyards =
          owned_shipyards-Covered db'.rents db'.shipyards (Covered-order db'.rents _ second);
      trade_stations =
          owned_trade_stations-Covered db'.rents db'.trade_stations
            (Covered-order db'.rents _ third);
      adds = adds;
    }

-- After a Reconcile that succeeds, a rent is owed for every station, shipyard and trade station
-- that has an owner; the rents that there were stay as they were, new ones only stand before
-- them, and no table but the rents has changed. Another Reconcile at any time then succeeds and
-- changes no rent.
pub reconcile_covers :
    (cfg : Config) (now : ℕ) (db : Db) {u : Unit {0}} {db' : Db}
    → reconcile cfg now db ≡ (done u, db')
    → Reconciled db db'
      × ((later : ℕ)
          → (db'' : Db) × (reconcile cfg later db' ≡ (done tt, db'')) × (db''.rents ≡ db'.rents))
unfolding reconcile player_owned
reconcile_covers cfg now db {db' = db'} h =
    let (adds, covered) = ensure_all-Covered cfg (now + cfg.period) (objects db) db h in
    let same = ap {A = Db} objects adds.frame in
    let all = subst (λ os. Covered os db'.rents) (sym same) covered in
    (
      Covered-Reconciled db db' adds all,
      λ later. ensure_all_again cfg (later + cfg.period) (objects db') db' all,
    )
