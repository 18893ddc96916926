-- ===== src/Auction/Listing.antt =====
-- internal/economy/auction/service.go, `Create` as a whole.
use spaceempire_back.Prelude.{
  ℕ, ◌+◌, ◌*◌, ◌≡◌, refl, ap, ◌∙◌, false, ◌&&◌, ◌||◌, ◌∷◌, arith, ◌==◌, if◌then◌else◌, ltb,
  Bool-cases, inl, inr,
}
use spaceempire_back.Prelude.Int.{pos, pos_part, ltb_ℤ, leb_ℤ}
use spaceempire_back.Domain.{EntityKind, ship}
use spaceempire_back.Store.Tables.{Lot, Db, CargoKey, key_eq_refl}
use spaceempire_back.Store.Tx.{
  Outcome, ok, fail, aborted, done, run_tx, run_tx-done, and_then-eq-ok,
}
use spaceempire_back.CargoRepo.{unowned_goods, cargo_key, is_known, find_goods_type}
use spaceempire_back.CargoRepo.Weights.{weigh, goods_weight, total_of, deposit, stack_weight}
use spaceempire_back.CargoRepo.Effects.{Loses, subtract-Loses}
use spaceempire_back.PlayersRepo.{find_player}
use spaceempire_back.Trade.Deals.{all_stock}
use spaceempire_back.PlayersRepo.Effects.{weigh_cash}
use spaceempire_back.AuctionRepo.{CreateLotParams, lot_row, new_lot, has_player, create_lot}
use spaceempire_back.Auction.{
  min_duration, max_duration, CreateParams, authorize_source, debit_seller, relabelled, lot_params,
  create_in, create,
}
use spaceempire_back.Auction.Escrow.{escrowed, listed, all_cash, all_goods, escrow_of, stock_of}
use spaceempire_back.Auction.Bids.{DockedSomewhere, require_docked-ok}

-- A source that is a ship is the seller's and docked.
abbrev pub MayList : EntityKind → ℕ → ℕ → Db → Type 0
MayList ship id seller db = DockedSomewhere seller id db
MayList _ id seller db = Unit {0}

authorize_source-MayList :
    (k : EntityKind) (id seller : ℕ) (db : Db) (u : Unit {0}) (db' : Db)
    → authorize_source k id seller db ≡ ok u db'
    → MayList k id seller db × (db' ≡ db)
authorize_source-MayList ship id seller db u db' h = require_docked-ok seller id db u db' h
authorize_source-MayList _ id seller db u db' h = (tt, cc)

relabelled-ok :
    (o : Outcome (Unit {0})) {u : Unit {0}} {db' : Db} → relabelled o ≡ ok u db' → o ≡ ok u db'
relabelled-ok (ok a db) h = h
relabelled-ok (fail e db) h = cc
relabelled-ok aborted h = cc

create_lot-ok :
    (now : ℕ) (p : CreateLotParams) (db : Db) {l : Lot} {db' : Db}
    → create_lot now p db ≡ ok l db'
    → (l ≡ new_lot db.next_lot_id now p)
      × (db'.auction_lots ≡ lot_row l ∷ db.auction_lots)
      × (db'.players ≡ db.players)
      × (db'.station_goods ≡ db.station_goods)
      × (db'.cargo ≡ db.cargo)
unfolding create_lot
create_lot-ok now p db h =
    elim (Bool-cases (
      has_player (find_player p.seller_id db.players)
      && is_known (find_goods_type p.goods_type db.goods_types)
      && ltb 0 p.quantity
      && ltb 0 p.start_price)) [ inl fits ↦ ground arith | inr refused ↦ ground arith ]

-- A lot for the goods, on top of the others; the goods are gone from the source, and no wallet
-- changed.
abbrev Listed : ℕ → ℕ → CreateParams → Db → Lot → Db → Type 0
Listed now stamp p db l db' =
    MayList p.source.kind p.source.id p.seller db
    × (l ≡ new_lot db.next_lot_id stamp (lot_params now p))
    × (db'.auction_lots ≡ lot_row l ∷ db.auction_lots)
    × (db'.players ≡ db.players)
    × (db'.station_goods ≡ db.station_goods)
    × ((w : CargoKey → ℕ)
        → weigh w db'.cargo
            + w (cargo_key p.source p.goods_type unowned_goods) * pos_part p.quantity
          ≡ weigh w db.cargo)

module _ (now stamp : ℕ) (p : CreateParams) (db a b db' : Db) {l : Lot} where
  created :
      MayList p.source.kind p.source.id p.seller db
      → a ≡ db
      → Loses (cargo_key p.source p.goods_type unowned_goods) (pos_part p.quantity) a b
      → l ≡ new_lot b.next_lot_id stamp (lot_params now p)
      → db'.auction_lots ≡ lot_row l ∷ b.auction_lots
      → db'.players ≡ b.players
      → db'.station_goods ≡ b.station_goods
      → db'.cargo ≡ b.cargo
      → Listed now stamp p db l db'
  created may same lost row lots players market cargo = (
    may,
    row
        ∙ ap (λ n. new_lot n stamp (lot_params now p))
            (ap (λ (x : Db). x.next_lot_id) (lost.frame) ∙ ap (λ (x : Db). x.next_lot_id) same),
    lots
        ∙ ap (λ ls. lot_row l ∷ ls)
            (ap (λ (x : Db). x.auction_lots) lost.frame ∙ ap (λ (x : Db). x.auction_lots) same),
    players ∙ (ap (λ (x : Db). x.players) lost.frame ∙ ap (λ (x : Db). x.players) same),
    market ∙ (ap (λ (x : Db). x.station_goods) lost.frame ∙ ap (λ (x : Db). x.station_goods) same),
    λ w. omega (arith, lost.sums w, ap (weigh w) cargo, ap (λ (x : Db). weigh w x.cargo) same),
  )

module _ (now stamp : ℕ) (p : CreateParams) (db : Db) {l : Lot} {db' : Db} where
  create_in-effects : create_in now stamp p db ≡ ok l db' → Listed now stamp p db l db'
  unfolding create_in debit_seller
  create_in-effects h =
      let (u, a, may, h₁) =
        and_then-eq-ok (authorize_source p.source.kind p.source.id p.seller db) _ h in
      let (allowed, same) =
        authorize_source-MayList p.source.kind p.source.id p.seller db u a may in
      let (v, b, taken, h₂) =
        and_then-eq-ok (debit_seller p.source p.goods_type (pos_part p.quantity) a) _ h₁ in
      let (row, lots, players, market, cargo) = create_lot-ok stamp (lot_params now p) b h₂ in
      created now stamp p db a b db' allowed same
        (subtract-Loses p.source p.goods_type (pos_part p.quantity) unowned_goods a
          (relabelled-ok _ taken))
        row lots players market cargo

-- What `Create` asks of its arguments.
abbrev pub IsListable : CreateParams → Type 0
IsListable p =
    (leb_ℤ p.quantity (pos 0) ≡ false)
    × (leb_ℤ p.start_price (pos 0) ≡ false)
    × (ltb_ℤ p.duration (pos min_duration) || ltb_ℤ (pos max_duration) p.duration ≡ false)

module _ (now stamp : ℕ) (p : CreateParams) (db : Db) {l : Lot} {db' : Db}
    (made : create now stamp p db ≡ (done l, db')) where
  create-Listed : IsListable p × Listed now stamp p db l db'
  unfolding create
  create-Listed = elim (Bool-cases (leb_ℤ p.quantity (pos 0))) [
    | inl bad ↦ ground arith
    | inr quantity ↦ elim (Bool-cases (leb_ℤ p.start_price (pos 0))) [
      | inl bad ↦ ground arith
      | inr price ↦
          elim (Bool-cases
            (ltb_ℤ p.duration (pos min_duration) || ltb_ℤ (pos max_duration) p.duration)) [
              | inl bad ↦ ground arith
              | inr duration ↦
                  let s : run_tx (create_in now stamp p) db ≡ (done l, db') = ground arith in
                  (
                    (quantity, price, duration),
                    create_in-effects now stamp p db (run_tx-done (create_in now stamp p) db s),
                  )
            ]
    ]
  ]

  -- A lot is opened only for a positive quantity at a positive price for a minute to a week, and
  -- from a ship only by its owner while docked; it is the answer, it stands on top of the other
  -- lots with its end cut to whole microseconds, and the unowned stack at its source has lost
  -- exactly its quantity.
  pub create_lists :
      IsListable p
      × MayList p.source.kind p.source.id p.seller db
      × (l ≡ new_lot db.next_lot_id stamp (lot_params now p))
      × (db'.auction_lots ≡ lot_row l ∷ db.auction_lots)
      × (deposit (cargo_key p.source p.goods_type unowned_goods) db'.cargo + l.quantity
          ≡ deposit (cargo_key p.source p.goods_type unowned_goods) db.cargo)
  unfolding deposit
  create_lists =
      let (listable, (may, row, lots, players, market, cargo)) = create-Listed in
      let k : CargoKey = cargo_key p.source p.goods_type unowned_goods in
      let quantity : l.quantity ≡ pos_part p.quantity = ap (λ (x : Lot). x.quantity) row in
      (listable, may, row, lots, ground (arith, cargo (stack_weight k), key_eq_refl k, quantity))

  -- Opening a lot only sets goods apart: holds, shelves and open lots together hold of each goods type what
  -- they held, and wallets and escrow the cash that they held.
  pub create-conserves : (all_cash db' ≡ all_cash db) × ((g : ℕ) → all_goods g db' ≡ all_goods g db)
  unfolding all_cash all_goods escrowed listed total_of
  create-conserves =
      let (listable, (may, row, lots, players, market, cargo)) = create-Listed in
      let none_ : escrow_of l ≡ 0 = rw row refl in
      (
        omega (arith, ap escrowed lots, ap (weigh_cash (λ _. 1)) players, none_),
        λ g.
            let some_ : stock_of g l ≡ (if p.goods_type == g then pos_part p.quantity else 0) =
              rw row refl in
            ground
              (arith, ap (listed g) lots, cargo (goods_weight g), ap (all_stock g) market, some_),
      )
