-- ===== src/AuctionRepo.antt =====
-- internal/persistence/auction/repo.go: the rows of `auction_lots` and `auction_bids`, and the
-- ships that can take a delivery. A time is a number of nanoseconds. `LockLot` reads a lot; its
-- row lock is what lets a transaction here run alone.
pub mod Effects
use spaceempire_back.Prelude.{
  ℕ, zero, suc, ◌+◌, Bool, true, false, not, ◌&&◌, ◌||◌, Option, none, some, List, [], ◌∷◌, ◌++◌,
  map, ltb, leb, ◌==◌, if◌then◌else◌, find_row, select,
}
use spaceempire_back.Domain.{EntityRef, ship}
use spaceempire_back.Store.Tables.{
  stored_time, GoodsType, Ship, CargoRow, Player, Lot, BidRow, Status, active, closed, cancelled,
  Db,
}
use spaceempire_back.Store.Tx.{
  Tx, ok, fail, aborted, or_raise, ship_not_found, lot_not_found, lot_not_active,
}
use spaceempire_back.CargoRepo.{ShipDock, dock_of, find_ship, is_known, find_goods_type, used_by}
use spaceempire_back.PlayersRepo.{find_player}

abbrev pub is_active : Status → Bool
is_active active = true
is_active _ = false

unfoldable pub load_ship_dock : ℕ → Tx ShipDock
load_ship_dock id db = or_raise (dock_of (find_ship id db.ships)) ship_not_found db

pub record CreateLotParams : Type 0 where
  pub seller_id : ℕ
  pub goods_type : ℕ
  pub quantity : ℕ
  pub source : EntityRef
  pub start_price : ℕ
  pub ends_at : ℕ

abbrev pub has_player : Option Player → Bool
has_player none = false
has_player (some _) = true

abbrev pub new_lot : ℕ → ℕ → CreateLotParams → Lot
new_lot id now p = record {
  id = id;
  seller_id = p.seller_id;
  goods_type = p.goods_type;
  quantity = p.quantity;
  source = p.source;
  start_price = p.start_price;
  current_price = p.start_price;
  current_bidder_id = none;
  ends_at = p.ends_at;
  status = active;
  created_at = now;
}

-- The INSERT and its foreign keys: the seller and the goods type must exist. The CHECKs on the
-- quantity and the price are met by what the service lets through. `now` is the database's clock.
-- The row of the lot that is answered: its end is a column.
abbrev pub lot_row : Lot → Lot
lot_row l = record l { ends_at = stored_time l.ends_at }

unfoldable pub create_lot : ℕ → CreateLotParams → Tx Lot
create_lot now p db =
    let lot = new_lot db.next_lot_id now p in
    if has_player (find_player p.seller_id db.players)
      && is_known (find_goods_type p.goods_type db.goods_types)
      && ltb 0 p.quantity
      && ltb 0 p.start_price
    then ok lot (record db {
      auction_lots = lot_row lot ∷ db.auction_lots;
      next_lot_id = db.next_lot_id + 1;
    })
    else aborted

unfoldable pub find_lot : ℕ → List Lot → Option Lot
find_lot id [] = none
find_lot id (l ∷ ls) = if l.id == id then some l else find_lot id ls

unfoldable pub get_lot : ℕ → Tx Lot
get_lot id db = or_raise (find_lot id db.auction_lots) lot_not_found db

abbrev if_active : Option Lot → Tx Lot
if_active none db = fail lot_not_found db
if_active (some l) db = if is_active l.status then ok l db else fail lot_not_active db

unfoldable pub lock_lot : ℕ → Tx Lot
lock_lot id db = if_active (find_lot id db.auction_lots) db

-- `ORDER BY ends_at, id`.
abbrev is_before : Lot → Lot → Bool
is_before a b = ltb a.ends_at b.ends_at || (a.ends_at == b.ends_at && leb a.id b.id)

abbrev insert_lot : Lot → List Lot → List Lot
insert_lot l [] = l ∷ []
insert_lot l (m ∷ ms) = if is_before l m then l ∷ m ∷ ms else m ∷ insert_lot l ms

unfoldable pub order_by_end : List Lot → List Lot
order_by_end [] = []
order_by_end (l ∷ ls) = insert_lot l (order_by_end ls)

unfoldable pub list_active : Tx (List Lot)
list_active db = ok (order_by_end (select (λ l. is_active l.status) db.auction_lots)) db

abbrev first_rows {ℓ} : {A : Type ℓ} → ℕ → List A → List A
first_rows n [] = []
first_rows zero (x ∷ xs) = []
first_rows (suc n) (x ∷ xs) = x ∷ first_rows n xs

-- The active lots whose timer has fired, at most `limit` of them.
unfoldable pub list_due : ℕ → ℕ → Tx (List ℕ)
list_due now limit db =
    ok
      (map (λ l. l.id)
        (first_rows limit
          (order_by_end (select (λ l. is_active l.status && leb l.ends_at now) db.auction_lots))))
      db

-- The UPDATEs of one lot by its id.
unfoldable pub set_bid : ℕ → ℕ → ℕ → List Lot → List Lot
set_bid id price bidder [] = []
set_bid id price bidder (l ∷ ls) =
    if l.id == id
    then record l { current_price = price; current_bidder_id = some bidder } ∷ ls
    else l ∷ set_bid id price bidder ls

unfoldable pub set_lot_status : ℕ → Status → List Lot → List Lot
set_lot_status id s [] = []
set_lot_status id s (l ∷ ls) =
    if l.id == id then record l { status = s } ∷ ls else l ∷ set_lot_status id s ls

-- The CHECKs that a bid must keep: a price of at least the start, and another player's lot.
abbrev keeps_checks : Lot → ℕ → ℕ → Bool
keeps_checks l price bidder =
    ltb 0 price && (leb l.start_price price && not (bidder == l.seller_id))

abbrev updated_bid : Option Lot → ℕ → ℕ → ℕ → Tx (Unit {0})
updated_bid none id price bidder db = fail lot_not_found db
updated_bid (some l) id price bidder db =
    if keeps_checks l price bidder && has_player (find_player bidder db.players)
    then ok tt (record db { auction_lots = set_bid id price bidder db.auction_lots })
    else aborted

unfoldable pub update_bid : ℕ → ℕ → ℕ → Tx (Unit {0})
update_bid id price bidder db = updated_bid (find_lot id db.auction_lots) id price bidder db

abbrev pub has_lot : Option Lot → Bool
has_lot none = false
has_lot (some _) = true

-- The foreign keys and the CHECK of `auction_bids`.
unfoldable pub insert_bid : ℕ → ℕ → ℕ → Tx (Unit {0})
insert_bid id bidder amount db =
    if has_lot (find_lot id db.auction_lots)
      && has_player (find_player bidder db.players)
      && ltb 0 amount
    then ok tt (record db {
      auction_bids =
          db.auction_bids ++ (record { lot_id = id; bidder_id = bidder; amount = amount } ∷ []);
    })
    else aborted

abbrev is_docked : Option EntityRef → Bool
is_docked none = false
is_docked (some _) = true

-- A docked ship of the buyer with that much room: `cargobay - used >= required`.
abbrev pub can_take : List GoodsType → List CargoRow → ℕ → ℕ → Ship → Bool
can_take types rows buyer required s =
    s.player_id == buyer
    && (is_docked s.docked
        && leb (required + used_by types (record { kind = ship; id = s.id }) rows) s.cargobay)

abbrev smaller_id : Ship → Option Ship → Option Ship
smaller_id s none = some s
smaller_id s (some t) = if leb s.id t.id then some s else some t

-- `ORDER BY s.id LIMIT 1` of the ships that the WHERE accepts.
abbrev pub lowest_id : List Ship → Option Ship
lowest_id [] = none
lowest_id (s ∷ ss) = smaller_id s (lowest_id ss)

abbrev id_of : Option Ship → Option ℕ
id_of none = none
id_of (some s) = some s.id

abbrev pub delivery_ship : Db → ℕ → ℕ → Option ℕ
delivery_ship db buyer required =
    id_of (lowest_id (select (can_take db.goods_types db.cargo buyer required) db.ships))

unfoldable pub find_delivery_ship : ℕ → ℕ → Tx (Option ℕ)
find_delivery_ship buyer required db = ok (delivery_ship db buyer required) db

abbrev updated_status : Option Lot → ℕ → Status → Tx (Unit {0})
updated_status none id s db = fail lot_not_found db
updated_status (some _) id s db =
    ok tt (record db { auction_lots = set_lot_status id s db.auction_lots })

unfoldable pub set_status : ℕ → Status → Tx (Unit {0})
set_status id s db = updated_status (find_lot id db.auction_lots) id s db
