-- ===== src/Auction/Closing.antt =====
-- internal/economy/auction/service.go: the three outcomes of `Close`, one by one.
use spaceempire_back.Prelude.{
  ℕ, ◌+◌, ◌*◌, ◌≡◌, refl, ap, ◌∙◌, true, false, Option, none, some, arith, ◌==◌, if◌then◌else◌, ◌⊎◌,
  Option-cases, inl, inr,
}
use spaceempire_back.Prelude.Int.{pos}
use spaceempire_back.Domain.{EntityRef, ship}
use spaceempire_back.Store.Tables.{Lot, Status, closed, cancelled, Db}
use spaceempire_back.Store.Tx.{
  ok, fail, aborted, and_then-eq-ok, goods_type_not_found, internal, Error,
}
use spaceempire_back.CargoRepo
use spaceempire_back.CargoRepo.{unowned_goods, cargo_key, add_stack, is_known, find_goods_type}
use spaceempire_back.CargoRepo.Weights.{goods_weight, total_of}
use spaceempire_back.CargoRepo.Effects.{Gains, add-Gains}
use spaceempire_back.PlayersRepo
use spaceempire_back.Trade.Deals.{all_stock}
use spaceempire_back.PlayersRepo.Effects.{Pays, adjust_cash-Pays}
use spaceempire_back.AuctionRepo.{
  find_lot, is_active, set_status, set_lot_status, delivery_ship, find_delivery_ship,
}
use spaceempire_back.AuctionRepo.Effects.{with_status, set_status-ok, find-set_lot_status}
use spaceempire_back.Auction.{
  refund_seller, deliver_to_buyer, logged, close_unsold, no_sale, pay_seller, hand_over, settle_lot,
}
use spaceempire_back.Auction.Escrow.{
  leading_bid, listed, all_cash, all_goods, all_cash_cong, Pays-all_cash, all_cash-set_status,
  all_goods-set_status,
}

-- The goods of a lot in units of type `g`.
abbrev pub lot_goods : Lot → ℕ → ℕ
lot_goods l g = if l.goods_type == g then l.quantity else 0

-- The lot is over, and all cash and goods are what they were.
abbrev pub Settled : Lot → ℕ → Db → Db → Type 0
Settled l id db db' =
    (all_cash db' ≡ all_cash db)
    × ((g : ℕ) → all_goods g db' ≡ all_goods g db)
    × (s : Status) × (is_active s ≡ false)
    × (find_lot id db'.auction_lots ≡ some (with_status l s))

-- Cash and goods have been given out, and the lots are as they were.
record Given (cash : ℕ) (goods : ℕ → ℕ) (db db' : Db) : Type 0 where
  cash_sum : all_cash db' ≡ all_cash db + cash
  goods_sum : (g : ℕ) → all_goods g db' ≡ all_goods g db + goods g
  same_lots : db'.auction_lots ≡ db.auction_lots

Gains-Given :
    (owner : EntityRef) (l : Lot) (db db' : Db)
    → Gains (cargo_key owner l.goods_type unowned_goods) l.quantity db db'
    → Given 0 (lot_goods l) db db'
unfolding all_goods total_of
Gains-Given owner l db db' gained =
    let lots : db'.auction_lots ≡ db.auction_lots = ap (λ (x : Db). x.auction_lots) gained.frame in
    record {
      cash_sum = all_cash_cong db' db (ap (λ (x : Db). x.players) gained.frame) lots ∙ omega arith;
      goods_sum = λ g. ground (
        arith,
        gained.sums (goods_weight g),
        ap (listed g) lots,
        ap (λ (x : Db). all_stock g x.station_goods) gained.frame,
      );
      same_lots = lots;
    }

Pays-Given : (id price : ℕ) (db db' : Db) → Pays id (pos price) db db' → Given price (λ g. 0) db db'
Pays-Given id price db db' paid =
    let (cash, goods, lots) = Pays-all_cash id (pos price) db db' paid in
    record {
      cash_sum = omega (arith, cash);
      goods_sum = λ g. omega (arith, goods g);
      same_lots = lots;
    }

-- `Add` either succeeds or is refused, so there is nothing that the log could swallow.
logged-add :
    (owner : EntityRef) (g q depositor : ℕ) (db : Db) {u : Unit {0}} {db' : Db}
    → logged (CargoRepo.add owner g q depositor db) ≡ ok u db'
    → CargoRepo.add owner g q depositor db ≡ ok tt db'
unfolding CargoRepo.add
logged-add owner g q depositor db h =
    elim (Option-cases (
      add_stack (is_known (find_goods_type g db.goods_types)) (cargo_key owner g depositor) q
        db.cargo)) [ inl e ↦ ground arith | inr (rows, e) ↦ ground arith ]

add-cases :
    (owner : EntityRef) (g q depositor : ℕ) (db : Db)
    → (CargoRepo.add owner g q depositor db ≡ aborted)
      ⊎ ((a : Db) × (CargoRepo.add owner g q depositor db ≡ ok tt a))
unfolding CargoRepo.add
add-cases owner g q depositor db =
    elim (Option-cases (
      add_stack (is_known (find_goods_type g db.goods_types)) (cargo_key owner g depositor) q
        db.cargo)) [
          | inl e ↦ inl (rw (e, CargoRepo.add))
          | inr (rows, e) ↦ inr (record db { cargo = rows }, rw (e, CargoRepo.add))
        ]

-- A delivery fails before it writes, hands the goods to a ship, or is refused.
deliver_to_buyer-cases :
    (l : Lot) (buyer : ℕ) (db : Db)
    → ((e : Error) × (deliver_to_buyer l buyer db ≡ fail e db))
      ⊎ (((vessel : ℕ) × (a : Db) × (deliver_to_buyer l buyer db ≡ ok tt a)
            × Gains
                (cargo_key (record { kind = ship; id = vessel }) l.goods_type unowned_goods)
                l.quantity
                db
                a)
          ⊎ (deliver_to_buyer l buyer db ≡ aborted))
unfolding deliver_to_buyer CargoRepo.goods_type find_delivery_ship
deliver_to_buyer-cases l buyer db =
    elim (Option-cases (find_goods_type l.goods_type db.goods_types)) [
      | inl e ↦ inl (goods_type_not_found, rw (e, deliver_to_buyer))
      | inr (gt, e) ↦ elim (Option-cases (delivery_ship db buyer (l.quantity * gt.space))) [
        | inl none_ ↦ inl (internal, rw (e, none_, deliver_to_buyer))
        | inr (vessel, some_) ↦
            let target : EntityRef = record { kind = ship; id = vessel } in
            elim (add-cases target l.goods_type l.quantity unowned_goods db) [
              | inl refused ↦ inr (inr (rw (e, some_, refused, deliver_to_buyer)))
              | inr (a, added) ↦ inr (
                  inl (
                    vessel,
                    a,
                    rw (e, some_, added, deliver_to_buyer),
                    add-Gains target l.goods_type l.quantity unowned_goods db added,
                  ))
            ]
      ]
    ]

module _ (l : Lot) (id : ℕ) (db : Db) (found : find_lot id db.auction_lots ≡ some l)
    (open_ : is_active l.status ≡ true) where
  -- Once the lot has given out all that it held, its status can change.
  end_lot :
      (s : Status) (a : Db) {u : Unit {0}} {db' : Db}
      → Given (leading_bid l.current_bidder_id l.current_price) (lot_goods l) db a
      → is_active s ≡ false
      → set_status id s a ≡ ok u db'
      → Settled l id db db'
  end_lot s a {db' = db'} given over h =
      let after : db' ≡ record a { auction_lots = set_lot_status id s a.auction_lots } =
        set_status-ok id s a h in
      let row : find_lot id a.auction_lots ≡ some l = ap (find_lot id) given.same_lots ∙ found in
      rw after (
        omega (arith, all_cash-set_status id a l row s open_ over, given.cash_sum),
        λ g. omega (arith, all_goods-set_status id a l row s g open_ over, given.goods_sum g),
        s,
        over,
        find-set_lot_status id s a.auction_lots l row,
      )

  close_unsold-Settled :
      {u : Unit {0}} {db' : Db}
      → l.current_bidder_id ≡ none
      → close_unsold l id db ≡ ok u db'
      → Settled l id db db'
  unfolding close_unsold refund_seller
  close_unsold-Settled no_bid h =
      let (u, a, first, rest) = and_then-eq-ok (logged (refund_seller l db)) _ h in
      let given : Given 0 (lot_goods l) db a = Gains-Given l.source l db a (
        add-Gains l.source l.goods_type l.quantity unowned_goods db
          (logged-add l.source l.goods_type l.quantity unowned_goods db first)) in
      let due : Given (leading_bid l.current_bidder_id l.current_price) (lot_goods l) db a =
        rw no_bid given in
      end_lot cancelled a due refl rest

  -- One payment and one delivery, in either order, give out all that a sold lot held.
  both :
      {buyer : ℕ} (a b : Db) {cash₁ cash₂ : ℕ} {goods₁ goods₂ : ℕ → ℕ}
      → l.current_bidder_id ≡ some buyer
      → Given cash₁ goods₁ db a
      → Given cash₂ goods₂ a b
      → cash₁ + cash₂ ≡ l.current_price
      → ((g : ℕ) → goods₁ g + goods₂ g ≡ lot_goods l g)
      → Given (leading_bid l.current_bidder_id l.current_price) (lot_goods l) db b
  both a b led_ x y cash goods =
      let price : leading_bid l.current_bidder_id l.current_price ≡ l.current_price =
        rw led_ refl in
      record {
        cash_sum = omega (arith, x.cash_sum, y.cash_sum, cash, price);
        goods_sum = λ g. omega (arith, x.goods_sum g, y.goods_sum g, goods g);
        same_lots = y.same_lots ∙ x.same_lots;
      }

  no_sale-Settled :
      (buyer : ℕ) {u : Unit {0}} {db' : Db}
      → l.current_bidder_id ≡ some buyer
      → no_sale l id buyer db ≡ ok u db'
      → Settled l id db db'
  unfolding no_sale refund_seller
  no_sale-Settled buyer led_ h =
      let (cash, a, paid, h₁) =
        and_then-eq-ok (PlayersRepo.adjust_cash buyer (pos l.current_price) db) _ h in
      let (u, b, back, h₂) = and_then-eq-ok (refund_seller l a) _ h₁ in
      let x =
        Pays-Given buyer l.current_price db a
          (adjust_cash-Pays buyer (pos l.current_price) db paid) in
      let y =
        Gains-Given l.source l a b
          (add-Gains l.source l.goods_type l.quantity unowned_goods a back) in
      end_lot closed b (both a b led_ x y (omega arith) (λ g. omega arith)) refl h₂

  sold-Settled :
      (buyer vessel : ℕ) (a : Db) {u : Unit {0}} {db' : Db}
      → l.current_bidder_id ≡ some buyer
      → Gains
          (cargo_key (record { kind = ship; id = vessel }) l.goods_type unowned_goods)
          l.quantity
          db
          a
      → pay_seller l id a ≡ ok u db'
      → Settled l id db db'
  unfolding pay_seller
  sold-Settled buyer vessel a led_ gained h =
      let (cash, b, paid, h₁) =
        and_then-eq-ok (PlayersRepo.adjust_cash l.seller_id (pos l.current_price) a) _ h in
      let x = Gains-Given (record { kind = ship; id = vessel }) l db a gained in
      let y =
        Pays-Given l.seller_id l.current_price a b
          (adjust_cash-Pays l.seller_id (pos l.current_price) a paid) in
      end_lot closed b (both a b led_ x y (omega arith) (λ g. omega arith)) refl h₁

  hand_over-Settled :
      (buyer : ℕ) {u : Unit {0}} {db' : Db}
      → l.current_bidder_id ≡ some buyer
      → hand_over l id buyer (deliver_to_buyer l buyer db) ≡ ok u db'
      → Settled l id db db'
  hand_over-Settled buyer led_ h = elim (deliver_to_buyer-cases l buyer db) [
    | inl (e, failed) ↦ no_sale-Settled buyer led_ (rw failed at h)
    | inr (inl (vessel, a, shipped, gained)) ↦
        sold-Settled buyer vessel a led_ gained (rw shipped at h)
    | inr (inr refused) ↦ absurd (ground arith)
  ]

  pub settle_lot-Settled :
      (o : Option ℕ) {u : Unit {0}} {db' : Db}
      → l.current_bidder_id ≡ o
      → settle_lot o l id db ≡ ok u db'
      → Settled l id db db'
  settle_lot-Settled none e h = close_unsold-Settled e h
  settle_lot-Settled (some buyer) e h = hand_over-Settled buyer e h
