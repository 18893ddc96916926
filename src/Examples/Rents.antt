-- ===== src/Examples/Rents.antt =====
-- A station that nobody owns is claimed; later its owner cannot pay for another one.
use spaceempire_back.Prelude.{
  ℕ, ◌≤◌, ◌≡◌, refl, none, some, List, [], ◌∷◌, arith, true, false, length,
}
use spaceempire_back.Prelude.Int.{wrap_i64, neg_i64}
use spaceempire_back.Domain.{ref_eq, kind_code}
use spaceempire_back.Store.Tables.{Db, Station}
use spaceempire_back.Store.Tx.{done, err, Error, run_tx}
use spaceempire_back.PlayersRepo.{adjust_cash, update_cash, find_player}
use spaceempire_back.StationsRepo.{
  claim_unowned, claim_station, has_unowned, take_rows, player_owned, order_by_id, insert_by_id,
  owned_stations, owned_shipyards, owned_trade_stations,
}
use spaceempire_back.RentsRepo.{
  has_rent, ensure, due, due_rows, order_by_due, insert_by_due, limited, mark_paid, paid_rows,
  mark_unpaid, unpaid_rows,
}
use spaceempire_back.Rent.{
  Config, reconcile, ensure_all, claim, claim_in, process_due, process_due_in, charge_all, charge,
  after_charge, miss, put_off, OverdueEvent, station_ref,
}
use spaceempire_back.Rent.Passes.{process_due_once}
use spaceempire_back.Rent.Claiming.{Claimed, claim_takes}
use spaceempire_back.Rent.Reconciling.{Reconciled, reconcile_covers}
use spaceempire_back.Rent.Answers.{answer, claim_answers}
use spaceempire_back.Examples.World.{world, player_of}

abbrev terms : Config
terms = record { period = 100; max_unpaid = 3; default_amount = 500; claim_price = 10000 }

abbrev empty_station : Station
empty_station = record {
  id = 4;
  station_type = 1;
  owner_id = none;
  built = true;
  in_progress = false;
  next_cycle_at = none;
  cargobay = 1000;
}

abbrev before : Db
before = record world { stations = empty_station ∷ world.stations }

-- Player 7 spends all its money on the station.
abbrev taken : Db
taken = (claim terms 7 4 50 before).1

abbrev billed : Db
billed = (process_due terms 150 200 taken).1

abbrev events : List OverdueEvent
events =
    record {
      rent_id = before.next_rent_id;
      payer = 7;
      station = station_ref 4;
      amount_per_period = 500;
      unpaid_periods = 1;
      confiscated = false;
    }
    ∷ []

claimed : claim terms 7 4 50 before ≡ (done tt, taken)
unfolding claim run_tx claim_in claim_unowned claim_station has_unowned take_rows adjust_cash
    update_cash neg_i64 wrap_i64 ensure has_rent find_player
claimed = refl

bill : process_due terms 150 200 taken ≡ (done events, billed)
unfolding claim run_tx claim_in claim_unowned claim_station has_unowned take_rows adjust_cash
    update_cash neg_i64 wrap_i64 ensure has_rent find_player process_due process_due_in due due_rows
    order_by_due insert_by_due limited charge_all charge after_charge miss put_off mark_paid
    paid_rows mark_unpaid unpaid_rows
bill = refl

one_due : length (due_rows 150 taken.rents) ≤ 200
unfolding claim run_tx claim_in claim_unowned claim_station has_unowned take_rows adjust_cash
    update_cash neg_i64 wrap_i64 ensure has_rent find_player due_rows order_by_due insert_by_due
one_due = omega arith

claim_takes_example : Claimed terms 7 4 50 before taken
claim_takes_example = claim_takes terms 7 4 50 before claimed

process_due_once_example :
    (due_rows 150 billed.rents ≡ [])
    × ((n : ℕ) → process_due terms 150 n billed ≡ (done [], billed))
process_due_once_example = process_due_once terms 150 taken 200 (omega arith) one_due bill

known : find_player 7 before.players ≡ some (player_of 7 10000)
unfolding find_player
known = refl

claim_answers_example :
    ((claim terms 7 4 50 before).0 ≡ answer terms 4 (player_of 7 10000) before)
    × ((e : Error) → (claim terms 7 4 50 before).0 ≡ err e → (claim terms 7 4 50 before).1 ≡ before)
claim_answers_example = claim_answers terms 7 4 50 (player_of 7 10000) before known (omega arith)

-- The owner of the other station starts to owe, too.
abbrev reconciled : Db
reconciled = (reconcile terms 60 taken).1

reconciles : reconcile terms 60 taken ≡ (done tt, reconciled)
unfolding claim run_tx claim_in claim_unowned claim_station has_unowned take_rows adjust_cash
    update_cash neg_i64 wrap_i64 ensure has_rent ref_eq kind_code find_player reconcile ensure_all
    player_owned order_by_id insert_by_id owned_stations owned_shipyards owned_trade_stations
reconciles = refl

reconcile_covers_example :
    Reconciled taken reconciled
    × ((later : ℕ)
        → (db : Db) × (reconcile terms later reconciled ≡ (done tt, db))
          × (db.rents ≡ reconciled.rents))
reconcile_covers_example = reconcile_covers terms 60 taken reconciles
