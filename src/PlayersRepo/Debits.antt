-- ===== src/PlayersRepo/Debits.antt =====
-- What `AdjustCash` answers to a debit.
use spaceempire_back.Prelude.{
  ℕ, ◌-◌, ◌≤◌, ◌≡◌, refl, ap, true, false, some, List, [], ◌∷◌, arith, ltb, ◌==◌, Bool-cases, inl,
  inr,
}
use spaceempire_back.Prelude.Int.{pos_part-neg, neg_part-neg, neg, max_i64}
use spaceempire_back.Store.Tables.{Player, Db}
use spaceempire_back.Store.Update.{no_row, updated, cons_update}
use spaceempire_back.Store.Tx.{ok, fail, insufficient_cash}
use spaceempire_back.PlayersRepo.{find_player, update_cash, adjust_cash}

-- The wallet of `p` has `n` less in `rows`.
pub record Debited (id n : ℕ) (p : Player) (ps rows : List Player) : Type 0 where
  pub written : update_cash id (neg n) ps ≡ updated (p.cash - n) rows
  pub found : find_player id rows ≡ some (record p { cash = p.cash - n })

module _ (id n : ℕ) (p : Player) where
  update_cash_short :
      (ps : List Player)
      → find_player id ps ≡ some p
      → ltb p.cash n ≡ true
      → update_cash id (neg n) ps ≡ no_row
  unfolding update_cash find_player
  update_cash_short [] h short = ground arith
  update_cash_short (q ∷ ps) h short = elim (Bool-cases (q.id == id)) [
    | inl here ↦
        let same : q ≡ p = ground arith in rw (pos_part-neg n, neg_part-neg n) (ground arith)
    | inr later ↦ rw later (ap (cons_update q) (update_cash_short ps (rw later at h) short))
  ]

  update_cash-Debited :
      (ps : List Player)
      → find_player id ps ≡ some p
      → p.cash ≤ max_i64
      → ltb p.cash n ≡ false
      → (rows : List Player) × Debited id n p ps rows
  unfolding update_cash find_player
  update_cash-Debited [] h fits enough = ground arith
  update_cash-Debited (q ∷ ps) h fits enough = elim (Bool-cases (q.id == id)) [
    | inl here ↦
        let same : q ≡ p = ground arith in
        (
          record p { cash = p.cash - n } ∷ ps,
          record {
            written = rw (pos_part-neg n, neg_part-neg n) (ground arith);
            found = ground arith;
          },
        )
    | inr later ↦
        let (rows, d) = update_cash-Debited ps (rw later at h) fits enough in
        (
          q ∷ rows,
          record { written = rw later (ap (cons_update q) d.written); found = rw later d.found },
        )
  ]

  pub adjust_cash_short :
      (db : Db)
      → find_player id db.players ≡ some p
      → ltb p.cash n ≡ true
      → adjust_cash id (neg n) db ≡ fail insufficient_cash db
  unfolding adjust_cash
  adjust_cash_short db h short =
      rw (update_cash_short db.players h short, h, pos_part-neg n, neg_part-neg n, adjust_cash)
        (ground arith)

  pub adjust_cash_enough :
      (db : Db)
      → find_player id db.players ≡ some p
      → p.cash ≤ max_i64
      → ltb p.cash n ≡ false
      → (rows : List Player) × (adjust_cash id (neg n) db
          ≡ ok (p.cash - n) (record db { players = rows }))
        × (find_player id rows ≡ some (record p { cash = p.cash - n }))
  unfolding adjust_cash
  adjust_cash_enough db h fits enough =
      let (rows, d) = update_cash-Debited db.players h fits enough in
      (rows, rw (d.written, adjust_cash) refl, d.found)
