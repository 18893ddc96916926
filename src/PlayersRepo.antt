-- ===== src/PlayersRepo.antt =====
-- internal/persistence/players/repo.go: the wallet and the reputation columns of `players`.
pub mod Effects
pub mod Debits
use spaceempire_back.Prelude.{
  ℕ, ◌+◌, ◌-◌, Bool, true, false, Option, none, some, List, [], ◌∷◌, ltb, leb, ◌==◌, if◌then◌else◌,
  find_row,
}
use spaceempire_back.Prelude.Int.{ℤ, pos, pos_part, neg_part, max_i64, max_i32}
use spaceempire_back.Store.Tables.{Player, Db}
use spaceempire_back.Store.Update.{Update, no_row, refused, updated, cons_update}
use spaceempire_back.Store.Tx.{Tx, ok, fail, aborted, player_not_found, insufficient_cash, internal}

unfoldable pub find_player : ℕ → List Player → Option Player
find_player id = find_row (λ p. p.id == id)

abbrev cash_or_missing : Option Player → Tx ℕ
cash_or_missing none db = fail player_not_found db
cash_or_missing (some p) db = ok p.cash db

unfoldable pub get_cash : ℕ → Tx ℕ
get_cash id db = cash_or_missing (find_player id db.players) db

-- `SET cash = cash + $2 WHERE id = $1 AND cash + $2 >= 0 RETURNING cash`.
unfoldable pub update_cash : ℕ → ℤ → List Player → Update Player
update_cash id delta [] = no_row
update_cash id delta (p ∷ ps) =
    let cash = p.cash + pos_part delta - neg_part delta in
    if p.id == id
    then (if ltb (p.cash + pos_part delta) (neg_part delta)
        then no_row
        else (if leb cash max_i64 then updated cash (record p { cash = cash } ∷ ps) else refused))
    else cons_update p (update_cash id delta ps)

-- Why the UPDATE found no row: `current+delta < 0`, or what cannot be.
abbrev why_no_row : Option Player → ℤ → Tx ℕ
why_no_row none delta db = fail player_not_found db
why_no_row (some p) delta db =
    fail (if ltb (p.cash + pos_part delta) (neg_part delta) then insufficient_cash else internal) db

unfoldable pub adjust_cash : ℕ → ℤ → Tx ℕ
adjust_cash id delta db = elim (update_cash id delta db.players) [
  | no_row ↦ why_no_row (find_player id db.players) delta db
  | refused ↦ aborted
  | updated cash rows ↦ ok cash (record db { players = rows })
]

-- `SET war_rate = war_rate + $2, trade_rate = trade_rate + $3`: two INTEGER columns.
unfoldable pub update_reputation : ℕ → ℕ → ℕ → List Player → Update Player
update_reputation id war trade [] = no_row
update_reputation id war trade (p ∷ ps) =
    if p.id == id
    then (if leb (p.war_rate + war) max_i32
        then (if leb (p.trade_rate + trade) max_i32
            then updated (p.trade_rate + trade)
                (record p { war_rate = p.war_rate + war; trade_rate = p.trade_rate + trade } ∷ ps)
            else refused)
        else refused)
    else cons_update p (update_reputation id war trade ps)

unfoldable pub add_reputation : ℕ → ℕ → ℕ → Tx (Unit {0})
add_reputation id war trade db = elim (update_reputation id war trade db.players) [
  | no_row ↦ fail player_not_found db
  | refused ↦ aborted
  | updated _ rows ↦ ok tt (record db { players = rows })
]
