-- ===== src/Auction.antt =====
-- internal/economy/auction/service.go: lots, bids and the closing of a lot, over the
-- repositories that tx_runner.go binds to one transaction. The goods of a lot are out of `cargo`
-- while it is open, and the leader's cash is out of `players`.
pub mod Escrow
pub mod Bids
pub mod Closing
pub mod Endings
pub mod Closer
pub mod Listing
use spaceempire_back.Prelude.{
  ℕ, ◌+◌, ◌*◌, Bool, true, not, ◌||◌, Option, none, some, List, ltb, leb, ◌==◌, if◌then◌else◌,
}
use spaceempire_back.Prelude.Int.{ℤ, pos, pos_part, neg, ltb_ℤ, leb_ℤ}
use spaceempire_back.Domain.{EntityKind, ship, EntityRef}
use spaceempire_back.Store.Tables.{Lot, closed, cancelled, Db}
use spaceempire_back.Store.Tx.{
  Tx, Outcome, ok, fail, aborted, Result, pure, raise, raise_if, refuse, run_tx, Error, forbidden,
  not_docked, insufficient_quantity, insufficient_cargo, lot_not_active, invalid_quantity,
  invalid_start_price, invalid_duration, seller_bid, bid_too_low, internal, ◌>>=◌, ◌>>◌,
}
use spaceempire_back.CargoRepo
use spaceempire_back.CargoRepo.{ShipDock, unowned_goods}
use spaceempire_back.PlayersRepo
use spaceempire_back.AuctionRepo.{
  CreateLotParams, load_ship_dock, create_lot, lock_lot, list_active, list_due, update_bid,
  insert_bid, find_delivery_ship, set_status,
}

-- One minute and one week, in nanoseconds.
abbrev pub min_duration : ℕ
min_duration = 60000000000

abbrev pub max_duration : ℕ
max_duration = 604800000000000

pub record CreateParams : Type 0 where
  pub seller : ℕ
  pub source : EntityRef
  pub goods_type : ℕ
  pub quantity : ℤ
  pub start_price : ℤ
  pub duration : ℤ

unfoldable pub check_docked : ShipDock → ℕ → Tx (Unit {0})
check_docked dock player =
    if not (dock.player_id == player)
    then raise forbidden
    else elim dock.docked [ none ↦ raise not_docked | some _ ↦ pure tt ]

unfoldable pub require_docked : ℕ → ℕ → Tx (Unit {0})
require_docked player ship_id = do dock ← load_ship_dock ship_id; check_docked dock player

abbrev insufficient : Error → Error
insufficient insufficient_quantity = insufficient_cargo
insufficient e = e

abbrev pub relabelled {ℓ} : {A : Type ℓ} → Outcome A → Outcome A
relabelled (ok a db) = ok a db
relabelled (fail e db) = fail (insufficient e) db
relabelled aborted = aborted

unfoldable pub debit_seller : EntityRef → ℕ → ℕ → Tx (Unit {0})
debit_seller source g q db = relabelled (CargoRepo.subtract source g q unowned_goods db)

-- Only a ship is asked for its dock.
abbrev pub authorize_source : EntityKind → ℕ → ℕ → Tx (Unit {0})
authorize_source ship id seller = require_docked seller id
authorize_source _ id seller = pure tt

abbrev pub lot_params : ℕ → CreateParams → CreateLotParams
lot_params now p = record {
  seller_id = p.seller;
  goods_type = p.goods_type;
  quantity = pos_part p.quantity;
  source = p.source;
  start_price = pos_part p.start_price;
  ends_at = now + pos_part p.duration;
}

-- `now` is the service's clock, `stamp` the database's.
unfoldable pub create_in : ℕ → ℕ → CreateParams → Tx Lot
create_in now stamp p = do
  authorize_source p.source.kind p.source.id p.seller
  debit_seller p.source p.goods_type (pos_part p.quantity)
  create_lot stamp (lot_params now p)

unfoldable pub create : ℕ → ℕ → CreateParams → Db → Result Lot × Db
create now stamp p db =
    if leb_ℤ p.quantity (pos 0)
    then refuse invalid_quantity db
    else if leb_ℤ p.start_price (pos 0)
    then refuse invalid_start_price db
    else if ltb_ℤ p.duration (pos min_duration) || ltb_ℤ (pos max_duration) p.duration
    then refuse invalid_duration db
    else run_tx (create_in now stamp p) db

pub record BidResult : Type 0 where
  pub new_price : ℕ
  pub new_leader : Bool

unfoldable pub refund_leader : Option ℕ → ℕ → Tx (Unit {0})
refund_leader none price = pure tt
refund_leader (some leader) price = do cash ← PlayersRepo.adjust_cash leader (pos price); pure tt

-- The writes of `Bid`, once every check has passed.
unfoldable pub settle_bid : ℕ → Lot → ℕ → ℕ → Tx BidResult
settle_bid bidder lot lot_id amount = do
  cash ← PlayersRepo.adjust_cash bidder (neg amount)
  refund_leader lot.current_bidder_id lot.current_price
  update_bid lot_id amount bidder
  insert_bid lot_id bidder amount
  pure (record { new_price = amount; new_leader = true })

unfoldable pub bid_in : ℕ → ℕ → ℕ → ℕ → ℕ → Tx BidResult
bid_in now bidder ship_id lot_id amount = do
  require_docked bidder ship_id
  lot ← lock_lot lot_id
  raise_if (lot.seller_id == bidder) seller_bid
  raise_if (not (ltb now lot.ends_at)) lot_not_active
  raise_if (leb amount lot.current_price) bid_too_low
  settle_bid bidder lot lot_id amount

unfoldable pub bid : ℕ → ℕ → ℕ → ℕ → ℤ → Db → Result BidResult × Db
bid now bidder ship_id lot_id amount db =
    if leb_ℤ amount (pos 0)
    then refuse bid_too_low db
    else run_tx (bid_in now bidder ship_id lot_id (pos_part amount)) db

unfoldable pub refund_seller : Lot → Tx (Unit {0})
refund_seller lot = CargoRepo.add lot.source lot.goods_type lot.quantity unowned_goods

abbrev pub delivered_to : Option ℕ → Lot → Tx (Unit {0})
delivered_to none lot = raise internal
delivered_to (some id) lot =
    CargoRepo.add (record { kind = ship; id = id }) lot.goods_type lot.quantity unowned_goods

unfoldable pub deliver_to_buyer : Lot → ℕ → Tx (Unit {0})
deliver_to_buyer lot buyer = do
  gt ← CargoRepo.goods_type lot.goods_type
  found ← find_delivery_ship buyer (lot.quantity * gt.space)
  delivered_to found lot

-- An error that is only logged. A refused statement cannot be ignored.
abbrev pub logged : Outcome (Unit {0}) → Outcome (Unit {0})
logged (ok u db) = ok tt db
logged (fail e db) = ok tt db
logged aborted = aborted

unfoldable pub close_unsold : Lot → ℕ → Tx (Unit {0})
close_unsold lot lot_id = do λ db. logged (refund_seller lot db); set_status lot_id cancelled

unfoldable pub no_sale : Lot → ℕ → ℕ → Tx (Unit {0})
no_sale lot lot_id buyer = do
  cash ← PlayersRepo.adjust_cash buyer (pos lot.current_price)
  refund_seller lot
  set_status lot_id closed

unfoldable pub pay_seller : Lot → ℕ → Tx (Unit {0})
pay_seller lot lot_id = do
  cash ← PlayersRepo.adjust_cash lot.seller_id (pos lot.current_price)
  set_status lot_id closed

abbrev pub hand_over : Lot → ℕ → ℕ → Outcome (Unit {0}) → Outcome (Unit {0})
hand_over lot lot_id buyer (ok u db) = pay_seller lot lot_id db
hand_over lot lot_id buyer (fail e db) = no_sale lot lot_id buyer db
hand_over lot lot_id buyer aborted = aborted

abbrev pub settle_lot : Option ℕ → Lot → ℕ → Tx (Unit {0})
settle_lot none lot lot_id db = close_unsold lot lot_id db
settle_lot (some buyer) lot lot_id db = hand_over lot lot_id buyer (deliver_to_buyer lot buyer db)

-- A lot that is not active is left as it is.
abbrev pub on_locked : ℕ → Outcome Lot → Outcome (Unit {0})
on_locked lot_id (ok lot db) = settle_lot lot.current_bidder_id lot lot_id db
on_locked lot_id (fail lot_not_active db) = ok tt db
on_locked lot_id (fail e db) = fail e db
on_locked lot_id aborted = aborted

unfoldable pub close_in : ℕ → Tx (Unit {0})
close_in lot_id db = on_locked lot_id (lock_lot lot_id db)

unfoldable pub close : ℕ → Db → Result (Unit {0}) × Db
close lot_id db = run_tx (close_in lot_id) db

unfoldable pub active_lots : Db → Result (List Lot) × Db
active_lots db = run_tx list_active db

unfoldable pub due_lots : ℕ → ℕ → Db → Result (List ℕ) × Db
due_lots now limit db = run_tx (list_due now limit) db
