-- ===== src/Auction/Bids.antt =====
-- internal/economy/auction/service.go, `Bid` as a whole: its checks and its writes.
use spaceempire_back.Prelude.{
  ◌&&◌, ℕ, ◌+◌, ◌≡◌, ◌≢◌, ◌<◌, refl, ap, ◌∙◌, true, not, Option, none, some, arith, ◌==◌, ltb, leb,
  Bool-cases, inl, inr, Option-cases,
}
use spaceempire_back.Prelude.Int.{ℤ, pos, pos_part, neg, leb_ℤ}
use spaceempire_back.Domain.{EntityRef}
use spaceempire_back.Store.Tables.{Lot, Db}
use spaceempire_back.Store.Tx.{
  ok, done, pure, ◌>>◌, run_tx, run_tx-done, and_then-eq-ok, seller_bid, lot_not_active,
  bid_too_low, ship_not_found,
}
use spaceempire_back.Store.Reads.{raise_if_then, or_raise-ReadOnly}
use spaceempire_back.CargoRepo.{ShipDock, dock_of, find_ship}
use spaceempire_back.PlayersRepo
use spaceempire_back.PlayersRepo.Effects.{Pays, adjust_cash-Pays}
use spaceempire_back.PlayersRepo.{find_player}
use spaceempire_back.AuctionRepo.{
  has_lot, has_player, load_ship_dock, lock_lot, find_lot, is_active, set_bid, update_bid,
  insert_bid,
}
use spaceempire_back.AuctionRepo.Effects.{led, lock_lot-ok, update_bid-ok, find-set_bid}
use spaceempire_back.Auction.{
  BidResult, check_docked, require_docked, refund_leader, settle_bid, bid_in, bid,
}
use spaceempire_back.Auction.Escrow.{
  leading_bid, all_cash, all_goods, Pays-all_cash, all_cash_cong, all_goods_cong, part_neg,
  all_cash-set_bid, all_goods-set_bid,
}

-- The ship is the player's, and it is docked somewhere.
pub record DockedSomewhere (player ship_id : ℕ) (db : Db) : Type 0 where
  pub dock : ShipDock
  pub at : EntityRef
  pub row : dock_of (find_ship ship_id db.ships) ≡ some dock
  pub owned : dock.player_id ≡ player
  pub docked : dock.docked ≡ some at

check_docked-ok :
    (dock : ShipDock) (player : ℕ) (db : Db) {u : Unit {0}} {db' : Db}
    → check_docked dock player db ≡ ok u db'
    → (dock.player_id ≡ player) × ((at : EntityRef) × (dock.docked ≡ some at)) × (db' ≡ db)
unfolding check_docked
check_docked-ok dock player db h = elim (Option-cases dock.docked) [
  | inl e ↦ ground arith
  | inr (at, e) ↦ (ground arith, (at, e), ground arith)
]

pub require_docked-ok :
    (player ship_id : ℕ) (db : Db) (u : Unit {0}) (db' : Db)
    → require_docked player ship_id db ≡ ok u db'
    → DockedSomewhere player ship_id db × (db' ≡ db)
unfolding require_docked load_ship_dock
require_docked-ok player ship_id db u db' h =
    let (dock, mid, read, checked) = and_then-eq-ok (load_ship_dock ship_id db) _ h in
    let (found, same) =
      or_raise-ReadOnly (dock_of (find_ship ship_id db.ships)) ship_not_found db dock mid read in
    let (owned, (at, docked), same') = check_docked-ok dock player mid checked in
    (record { dock = dock; at = at; row = found; owned = owned; docked = docked }, cc)

refund_leader-all_cash :
    (leader : Option ℕ) (price : ℕ) (db : Db) {u : Unit {0}} {db' : Db}
    → refund_leader leader price db ≡ ok u db'
    → (all_cash db' ≡ all_cash db + leading_bid leader price)
      × ((g : ℕ) → all_goods g db' ≡ all_goods g db)
      × (db'.auction_lots ≡ db.auction_lots)
unfolding refund_leader
refund_leader-all_cash none price db {db' = db'} h =
    let same : db' ≡ db = cc in rw same (omega arith, λ g. refl, refl)
refund_leader-all_cash (some leader) price db {db' = db'} h =
    let (cash, mid, paid, rest) =
      and_then-eq-ok (PlayersRepo.adjust_cash leader (pos price) db) _ h in
    let same : db' ≡ mid = cc in
    let (c, g, l) =
      Pays-all_cash leader (pos price) db mid (adjust_cash-Pays leader (pos price) db paid) in
    rw same (omega (arith, c), g, l)

-- What `Bid` checked before its first write.
pub record CanBid (now bidder ship_id lot_id amount : ℕ) (db : Db) : Type 0 where
  pub docked : DockedSomewhere bidder ship_id db
  pub lot : Lot
  pub found : find_lot lot_id db.auction_lots ≡ some lot
  pub open_ : is_active lot.status ≡ true
  pub foreign : lot.seller_id ≢ bidder
  pub in_time : now < lot.ends_at
  pub higher : lot.current_price < amount

bid_in-CanBid :
    (now bidder ship_id lot_id amount : ℕ) (db : Db) {r : BidResult} {db' : Db}
    → bid_in now bidder ship_id lot_id amount db ≡ ok r db'
    → (c : CanBid now bidder ship_id lot_id amount db) × (settle_bid bidder c.lot lot_id amount db
        ≡ ok r db')
unfolding bid_in
bid_in-CanBid now bidder ship_id lot_id amount db h =
    let (u, mid, docked_, h₁) = and_then-eq-ok (require_docked bidder ship_id db) _ h in
    let (docked, same) = require_docked-ok bidder ship_id db u mid docked_ in
    let (l, mid₂, locked, h₂) = and_then-eq-ok (lock_lot lot_id mid) _ h₁ in
    let (found, open_, same₂) = lock_lot-ok lot_id mid l mid₂ locked in
    let (foreign, h₃) = raise_if_then (l.seller_id == bidder) seller_bid _ mid₂ h₂ in
    let (in_time, h₄) = raise_if_then (not (ltb now l.ends_at)) lot_not_active _ mid₂ h₃ in
    let (higher, h₅) = raise_if_then (leb amount l.current_price) bid_too_low _ mid₂ h₄ in
    (
      record {
        docked = docked;
        lot = l;
        found = rw same at found;
        open_ = open_;
        foreign = ground arith;
        in_time = ground arith;
        higher = ground arith;
      },
      rw (same₂, same) at h₅,
    )

insert_bid-ok :
    (id bidder amount : ℕ) (db : Db) {u : Unit {0}} {db' : Db}
    → insert_bid id bidder amount db ≡ ok u db'
    → (db'.players ≡ db.players)
      × (db'.cargo ≡ db.cargo)
      × (db'.station_goods ≡ db.station_goods)
      × (db'.auction_lots ≡ db.auction_lots)
unfolding insert_bid
insert_bid-ok id bidder amount db h =
    elim (Bool-cases (
      has_lot (find_lot id db.auction_lots)
      && has_player (find_player bidder db.players)
      && ltb 0 amount)) [
        | inl fits ↦ (ground arith, ground arith, ground arith, ground arith)
        | inr refused ↦ ground arith
      ]

-- The row of `auction_bids` and the answer.
record_bid :
    (id bidder amount : ℕ) (db : Db) {r : BidResult} {db' : Db}
    → (insert_bid id bidder amount >> pure (record { new_price = amount; new_leader = true })) db
      ≡ ok r db'
    → (db'.players ≡ db.players)
      × (db'.cargo ≡ db.cargo)
      × (db'.station_goods ≡ db.station_goods)
      × (db'.auction_lots ≡ db.auction_lots)
      × (r.new_price ≡ amount)
record_bid id bidder amount db {r = r} {db' = db'} h =
    let (u, mid, inserted, rest) = and_then-eq-ok (insert_bid id bidder amount db) _ h in
    let same : mid ≡ db' = cc in
    let (ps, gs, ms, ls) = insert_bid-ok id bidder amount db (rw same at inserted) in
    (ps, gs, ms, ls, ground arith)

abbrev Kept : Lot → ℕ → ℕ → ℕ → Db → Db → Type 0
Kept l bidder id amount db db' =
    (all_cash db' ≡ all_cash db)
    × ((g : ℕ) → all_goods g db' ≡ all_goods g db)
    × (find_lot id db'.auction_lots ≡ some (led l amount bidder))

bid_steps :
    (bidder : ℕ) (l : Lot) (id amount : ℕ) (db a b c db' : Db)
    → find_lot id db.auction_lots ≡ some l
    → is_active l.status ≡ true
    → Pays bidder (neg amount) db a
    → (all_cash b ≡ all_cash a + leading_bid l.current_bidder_id l.current_price)
      × ((g : ℕ) → all_goods g b ≡ all_goods g a)
      × (b.auction_lots ≡ a.auction_lots)
    → c ≡ record b { auction_lots = set_bid id amount bidder b.auction_lots }
    → (db'.players ≡ c.players)
      × (db'.cargo ≡ c.cargo)
      × (db'.station_goods ≡ c.station_goods)
      × (db'.auction_lots ≡ c.auction_lots)
    → Kept l bidder id amount db db'
bid_steps bidder l id amount db a b c db' found open_ paid (c₂, g₂, l₂) after (ps, gs, ms, ls) =
    let (c₁, g₁, l₁) = Pays-all_cash bidder (neg amount) db a paid in
    let row : find_lot id b.auction_lots ≡ some l = ap (find_lot id) (l₂ ∙ l₁) ∙ found in
    let c₃ = all_cash-set_bid id b l row amount bidder open_ in
    let lots : db'.auction_lots ≡ set_bid id amount bidder b.auction_lots =
      ls ∙ ap (λ (x : Db). x.auction_lots) after in
    let cash : all_cash db' ≡ all_cash c = all_cash_cong db' c ps ls in
    let goods : (g : ℕ) → all_goods g db' ≡ all_goods g c = λ g. all_goods_cong g db' c gs ms ls in
    (
      omega (arith, cash, ap all_cash after, c₁, c₂, c₃, part_neg amount),
      λ g.
          goods g
          ∙ (ap (all_goods g) after
              ∙ (all_goods-set_bid id b l row amount bidder g ∙ (g₂ g ∙ g₁ g))),
      ap (find_lot id) lots ∙ find-set_bid id amount bidder b.auction_lots l row,
    )

-- The writes of a bid.
settle_bid-Kept :
    (bidder : ℕ) (l : Lot) (id amount : ℕ) (db : Db) {r : BidResult} {db' : Db}
    → find_lot id db.auction_lots ≡ some l
    → is_active l.status ≡ true
    → settle_bid bidder l id amount db ≡ ok r db'
    → Kept l bidder id amount db db' × (r.new_price ≡ amount)
unfolding settle_bid
settle_bid-Kept bidder l id amount db {r = r} {db' = db'} found open_ h =
    let (cash, a, paid, h₁) = and_then-eq-ok (PlayersRepo.adjust_cash bidder (neg amount) db) _ h in
    let (u, b, back, h₂) =
      and_then-eq-ok (refund_leader l.current_bidder_id l.current_price a) _ h₁ in
    let (v, c, set, h₃) = and_then-eq-ok (update_bid id amount bidder b) _ h₂ in
    let (ps, gs, ms, ls, price) = record_bid id bidder amount c h₃ in
    (
      bid_steps bidder l id amount db a b c db' found open_
          (adjust_cash-Pays bidder (neg amount) db paid)
          (refund_leader-all_cash l.current_bidder_id l.current_price a back)
          (update_bid-ok id amount bidder b set) (ps, gs, ms, ls),
      price,
    )

module _ (now bidder ship_id lot_id : ℕ) (amount : ℤ) (db : Db) {r : BidResult} {db' : Db}
    (placed : bid now bidder ship_id lot_id amount db ≡ (done r, db')) where
  bid-Placed :
      (c : CanBid now bidder ship_id lot_id (pos_part amount) db) × Kept c.lot bidder lot_id
        (pos_part amount)
        db
        db'
      × (r.new_price ≡ pos_part amount)
  unfolding bid
  bid-Placed = elim (Bool-cases (leb_ℤ amount (pos 0))) [
    | inl bad ↦ ground arith
    | inr positive ↦
        let s : run_tx (bid_in now bidder ship_id lot_id (pos_part amount)) db ≡ (done r, db') =
          ground arith in
        let (c, settled) =
          bid_in-CanBid now bidder ship_id lot_id (pos_part amount) db (run_tx-done _ db s) in
        let (kept, price) =
          settle_bid-Kept bidder c.lot lot_id (pos_part amount) db c.found c.open_ settled in
        (c, kept, price)
  ]

  -- A bid is taken only from the owner of a docked ship, who is not the seller, on an open lot
  -- before its end, and above its current price. The lot then has the bidder as its leader at the
  -- amount bid, is otherwise the same, and the amount is the answer.
  pub bid_leads :
      (c : CanBid now bidder ship_id lot_id (pos_part amount) db) × (find_lot lot_id
          db'.auction_lots
        ≡ some (led c.lot (pos_part amount) bidder))
      × (r.new_price ≡ pos_part amount)
  bid_leads = let (c, (_, _, found), price) = bid-Placed in (c, found, price)

  -- A bid only moves cash between wallets and the open lots: what all players have and what leaders
  -- have paid for open lots is together what it was, and so are the goods of each type in holds, on
  -- shelves and in open lots.
  pub bid-conserves : (all_cash db' ≡ all_cash db) × ((g : ℕ) → all_goods g db' ≡ all_goods g db)
  bid-conserves = let (c, (cash, goods, _), price) = bid-Placed in (cash, goods)
