-- ===== src/StationsRepo.antt =====
-- internal/persistence/stations/repo.go: UpdateProduction, and the owners of stations.
use spaceempire_back.Prelude.{
  ℕ, Bool, true, false, ◌&&◌, Option, none, some, List, [], ◌∷◌, ◌==◌, leb, if◌then◌else◌, ◌++◌,
}
use spaceempire_back.Domain.{EntityKind, station, shipyard, trade_station, EntityRef}
use spaceempire_back.Store.Tables.{stored_time, Station, Shipyard, TradeStation}
use spaceempire_back.Store.Tx.{Tx, ok, fail, aborted, raise, internal}
use spaceempire_back.PlayersRepo.{find_player}
use spaceempire_back.AuctionRepo.{has_player}

abbrev is_none : Option ℕ → Bool
is_none none = true
is_none (some _) = false

abbrev pub stored_next : Option ℕ → Option ℕ
stored_next none = none
stored_next (some t) = some (stored_time t)

unfoldable pub set_production : ℕ → Bool → Option ℕ → List Station → List Station
set_production i in_progress next [] = []
set_production i in_progress next (s ∷ ss) =
    let rest = set_production i in_progress next ss in
    if s.id == i
    then record s { in_progress = in_progress; next_cycle_at = stored_next next } ∷ ss
    else s ∷ rest

-- A station that has no row is no error.
unfoldable pub update_production : ℕ → Bool → Option ℕ → Tx (Unit {0})
update_production i in_progress next db =
    ok tt (record db { stations = set_production i in_progress next db.stations })

-- `SET owner_id = $2 WHERE id = $1 AND owner_id IS NULL`, with the number of rows.
unfoldable pub take_rows : ℕ → ℕ → List Station → List Station
take_rows i owner [] = []
take_rows i owner (s ∷ ss) =
    let rest = take_rows i owner ss in
    if s.id == i && is_none s.owner_id then record s { owner_id = some owner } ∷ rest else s ∷ rest

unfoldable pub has_unowned : ℕ → List Station → Bool
has_unowned i [] = false
has_unowned i (s ∷ ss) =
    let rest = has_unowned i ss in if s.id == i && is_none s.owner_id then true else rest

-- The foreign key is tested only where a row is written.
unfoldable pub claim_station : ℕ → ℕ → Tx Bool
claim_station i owner db =
    if has_unowned i db.stations
    then (if has_player (find_player owner db.players)
        then ok true (record db { stations = take_rows i owner db.stations })
        else aborted)
    else ok false db

unfoldable pub claim_unowned : EntityRef → ℕ → Tx Bool
claim_unowned ref owner = elim ref.kind [
  | station ↦ claim_station ref.id owner
  | _ ↦ raise internal
]

unfoldable pub clear_stations : ℕ → List Station → List Station
clear_stations i [] = []
clear_stations i (s ∷ ss) =
    let rest = clear_stations i ss in
    if s.id == i then record s { owner_id = none } ∷ rest else s ∷ rest

unfoldable pub clear_shipyards : ℕ → List Shipyard → List Shipyard
clear_shipyards i [] = []
clear_shipyards i (s ∷ ss) =
    let rest = clear_shipyards i ss in
    if s.id == i then record s { owner_id = none } ∷ rest else s ∷ rest

unfoldable pub clear_trade_stations : ℕ → List TradeStation → List TradeStation
clear_trade_stations i [] = []
clear_trade_stations i (s ∷ ss) =
    let rest = clear_trade_stations i ss in
    if s.id == i then record s { owner_id = none } ∷ rest else s ∷ rest

unfoldable pub clear_owner : EntityRef → Tx (Unit {0})
clear_owner ref db = elim ref.kind [
  | station ↦ ok tt (record db { stations = clear_stations ref.id db.stations })
  | shipyard ↦ ok tt (record db { shipyards = clear_shipyards ref.id db.shipyards })
  | trade_station ↦
      ok tt (record db { trade_stations = clear_trade_stations ref.id db.trade_stations })
  | _ ↦ fail internal db
]

pub record OwnedStatic : Type 0 where
  pub ref : EntityRef
  pub owner : ℕ

-- `WHERE owner_id IS NOT NULL`
abbrev pub owned : EntityKind → ℕ → Option ℕ → List OwnedStatic → List OwnedStatic
owned k i none rest = rest
owned k i (some p) rest = record { ref = record { kind = k; id = i }; owner = p } ∷ rest

-- `ORDER BY id` in one of the three tables.
unfoldable pub insert_by_id : OwnedStatic → List OwnedStatic → List OwnedStatic
insert_by_id o [] = o ∷ []
insert_by_id o (x ∷ xs) =
    let rest = insert_by_id o xs in if leb o.ref.id x.ref.id then o ∷ x ∷ xs else x ∷ rest

unfoldable pub order_by_id : List OwnedStatic → List OwnedStatic
order_by_id [] = []
order_by_id (o ∷ os) = insert_by_id o (order_by_id os)

unfoldable pub owned_stations : List Station → List OwnedStatic
owned_stations [] = []
owned_stations (s ∷ ss) = owned station s.id s.owner_id (owned_stations ss)

unfoldable pub owned_shipyards : List Shipyard → List OwnedStatic
owned_shipyards [] = []
owned_shipyards (s ∷ ss) = owned shipyard s.id s.owner_id (owned_shipyards ss)

unfoldable pub owned_trade_stations : List TradeStation → List OwnedStatic
owned_trade_stations [] = []
owned_trade_stations (s ∷ ss) = owned trade_station s.id s.owner_id (owned_trade_stations ss)

unfoldable pub player_owned : Tx (List OwnedStatic)
player_owned db =
    ok
      (order_by_id (owned_stations db.stations)
        ++ order_by_id (owned_shipyards db.shipyards)
        ++ order_by_id (owned_trade_stations db.trade_stations))
      db
