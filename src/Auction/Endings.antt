-- ===== src/Auction/Endings.antt =====
-- internal/economy/auction/service.go, `Close` as a whole.
use spaceempire_back.Prelude.{
  ℕ, ◌≡◌, refl, ap, true, false, some, ◌⊎◌, Option-cases, inl, inr, Bool-cases,
}
use spaceempire_back.Store.Tables.{Lot, Status, Db}
use spaceempire_back.Store.Tx.{Outcome, ok, fail, done, run_tx, run_tx-done, lot_not_found}
use spaceempire_back.AuctionRepo.{lock_lot, find_lot, is_active}
use spaceempire_back.AuctionRepo.Effects.{with_status}
use spaceempire_back.Auction.{settle_lot, close_in, close}
use spaceempire_back.Auction.Escrow.{all_cash, all_goods}
use spaceempire_back.Auction.Closing.{Settled, settle_lot-Settled}

-- An open lot is settled, and any other is left alone.
abbrev Closed : ℕ → Db → Db → Type 0
Closed id db db' =
    (l : Lot) × (find_lot id db.auction_lots ≡ some l)
    × (((is_active l.status ≡ true) × Settled l id db db')
        ⊎ ((is_active l.status ≡ false) × (db' ≡ db)))

close_over :
    (id : ℕ) (db : Db) (l : Lot)
    → find_lot id db.auction_lots ≡ some l
    → is_active l.status ≡ false
    → close id db ≡ (done tt, db)
unfolding close close_in lock_lot run_tx
close_over id db l found over = rw (found, over) refl

close_in-Closed :
    (id : ℕ) (db : Db) {u : Unit {0}} {db' : Db} → close_in id db ≡ ok u db' → Closed id db db'
unfolding close_in lock_lot
close_in-Closed id db {u = u} {db' = db'} h = elim (Option-cases (find_lot id db.auction_lots)) [
  | inl e ↦
      let s : ◌≡◌ {A = Outcome (Unit {0})} (fail lot_not_found db) (ok u db') = rw e at h in cc
  | inr (l, e) ↦ elim (Bool-cases (is_active l.status)) [
    | inl live ↦
        let s : settle_lot l.current_bidder_id l id db ≡ ok u db' = rw (e, live) at h in
        (l, e, inl (live, settle_lot-Settled l id db e live l.current_bidder_id refl s))
    | inr over ↦
        let s : ◌≡◌ {A = Outcome (Unit {0})} (ok tt db) (ok u db') = rw (e, over) at h in
        (l, e, inr (over, cc))
  ]
]

module _ (id : ℕ) (db : Db) {u : Unit {0}} {db' : Db} (over : close id db ≡ (done u, db')) where
  close-Closed : Closed id db db'
  unfolding close
  close-Closed = close_in-Closed id db (run_tx-done (close_in id) db over)

  -- Closing a lot that exists ends it: an open lot is closed or cancelled and otherwise the same,
  -- and for a lot that is not open nothing at all changes.
  pub close_ends :
      (l : Lot) × (find_lot id db.auction_lots ≡ some l)
      × (((is_active l.status ≡ true)
            × (s : Status) × (is_active s ≡ false)
            × (find_lot id db'.auction_lots ≡ some (with_status l s)))
          ⊎ ((is_active l.status ≡ false) × (db' ≡ db)))
  close_ends =
      let (l, e, c) = close-Closed in
      elim c [
        | inl (live, (cash, goods, s, no_more, found)) ↦ (l, e, inl (live, s, no_more, found))
        | inr (dead, same) ↦ (l, e, inr (dead, same))
      ]

  -- Whatever the outcome, a sale, a sale that could not be delivered or no bid at all, closing
  -- loses no cash and no goods: wallets and escrow, and holds, shelves and open lots, are together what they
  -- were.
  pub close-conserves : (all_cash db' ≡ all_cash db) × ((g : ℕ) → all_goods g db' ≡ all_goods g db)
  close-conserves =
      let (l, e, c) = close-Closed in
      elim c [
        | inl (live, (cash, goods, s, no_more, found)) ↦ (cash, goods)
        | inr (dead, same) ↦ (ap all_cash same, λ g. ap (all_goods g) same)
      ]

  -- Closing a lot again succeeds and changes nothing.
  pub close_twice : close id db' ≡ (done tt, db')
  close_twice =
      let (l, e, c) = close-Closed in
      elim c [
        | inl (live, (cash, goods, s, no_more, found)) ↦
            close_over id db' (with_status l s) found no_more
        | inr (dead, same) ↦ close_over id db' l (rw same e) dead
      ]
