-- ===== src/Rent/Answers.antt =====
-- internal/economy/rent/service.go: what Claim answers.
use spaceempire_back.Prelude.{
  ℕ, suc, ◌+◌, ◌≤◌, ◌≡◌, refl, ap, true, false, not, some, ◌∷◌, ltb, if◌then◌else◌, Bool-cases, inl,
  inr,
}
use spaceempire_back.Prelude.Int.{max_i64}
use spaceempire_back.Domain.{EntityRef}
use spaceempire_back.Store.Tables.{Player, Db}
use spaceempire_back.Store.Tx.{
  ◌>>=◌, ok, fail, Result, done, err, Error, run_tx, run_tx-err, station_owned, insufficient_funds,
}
use spaceempire_back.PlayersRepo.{find_player}
use spaceempire_back.Trade.{relabel}
use spaceempire_back.PlayersRepo.Debits.{adjust_cash_short, adjust_cash_enough}
use spaceempire_back.StationsRepo.{claim_unowned, claim_station, has_unowned, take_rows}
use spaceempire_back.RentsRepo.{has_rent, new_rent, ensure}
use spaceempire_back.Rent.{Config, station_ref, claim_in, claim}

ensure_runs :
    (payer : ℕ) (ref : EntityRef) (amount next : ℕ) (db : Db) {p : Player}
    → find_player payer db.players ≡ some p
    → (db' : Db) × (ensure payer ref amount next db ≡ ok tt db')
unfolding ensure
ensure_runs payer ref amount next db h = elim (Bool-cases (has_rent ref db.rents)) [
  | inl there ↦ (record db { next_rent_id = suc db.next_rent_id }, rw (there, ensure) refl)
  | inr absent ↦ (
    record db {
      rents = new_rent db.next_rent_id payer ref amount next ∷ db.rents;
      next_rent_id = suc db.next_rent_id;
    },
    rw (absent, h, ensure) refl,
  )
]

-- The answer to a player whose row is `p`.
abbrev pub answer : Config → ℕ → Player → Db → Result (Unit {0})
answer cfg i p db =
    if not (has_unowned i db.stations)
    then err station_owned
    else if ltb p.cash cfg.claim_price
    then err insufficient_funds
    else done tt

module _ (cfg : Config) (player i now : ℕ) (p : Player) (db : Db)
    (known : find_player player db.players ≡ some p) where
  abbrev taken : Db
  taken = record db { stations = take_rows i player db.stations }

  claim_in_owned :
      has_unowned i db.stations ≡ false → claim_in cfg player i now db ≡ fail station_owned db
  unfolding claim_in claim_unowned claim_station
  claim_in_owned h = rw h refl

  claim_station_free : has_unowned i db.stations ≡ true → claim_station i player db ≡ ok true taken
  unfolding claim_station
  claim_station_free h = rw (h, known, claim_station) refl

  claim_in_short :
      has_unowned i db.stations ≡ true
      → ltb p.cash cfg.claim_price ≡ true
      → claim_in cfg player i now db ≡ fail insufficient_funds taken
  unfolding claim_in claim_unowned
  claim_in_short h short =
      rw
        (
          claim_station_free h,
          adjust_cash_short player cfg.claim_price p taken known short,
          ◌>>=◌,
          relabel,
        )
        refl

  claim_in_runs :
      has_unowned i db.stations ≡ true
      → p.cash ≤ max_i64
      → ltb p.cash cfg.claim_price ≡ false
      → (db' : Db) × (claim_in cfg player i now db ≡ ok tt db')
  unfolding claim_in claim_unowned
  claim_in_runs h fits enough =
      let (rows, paid, there) =
        adjust_cash_enough player cfg.claim_price p taken known fits enough in
      let (db', owes) =
        ensure_runs player (station_ref i) cfg.default_amount (now + cfg.period)
          (record taken { players = rows }) there in
      (db', rw (claim_station_free h, paid, owes, ◌>>=◌, relabel) refl)

  -- For a player who exists, with cash that fits an int64, a claim is refused as owned where no
  -- station of that id is without an owner, else refused for lack of funds where the player has
  -- less than the claim price, and else succeeds; any refusal changes nothing.
  pub claim_answers :
      p.cash ≤ max_i64
      → ((claim cfg player i now db).0 ≡ answer cfg i p db)
        × ((e : Error) → (claim cfg player i now db).0 ≡ err e → (claim cfg player i now db).1 ≡ db)
  unfolding claim run_tx
  claim_answers fits = (
    elim (Bool-cases (has_unowned i db.stations)) [
      | inr owned ↦ rw (claim_in_owned owned, owned) refl
      | inl free ↦ elim (Bool-cases (ltb p.cash cfg.claim_price)) [
        | inl short ↦ rw (claim_in_short free short, free, short) refl
        | inr enough ↦ rw ((claim_in_runs free fits enough).1, free, enough) refl
      ]
    ],
    λ e h.
        run_tx-err (claim_in cfg player i now) db (ap (λ x. (x, (claim cfg player i now db).1)) h),
  )
