-- ===== src/PlayersRepo/Effects.antt =====
-- The sum of all wallets under `AdjustCash` and `AddReputation`.
use spaceempire_back.Prelude.{
  ℕ, ◌+◌, ◌*◌, ◌≡◌, refl, ap, List, [], ◌∷◌, arith, ◌==◌, Bool-cases, inl, inr, ==→≡, mul_change,
}
use spaceempire_back.Prelude.Int.{ℤ, pos_part, neg_part}
use spaceempire_back.Store.Tables.{Player, Db}
use spaceempire_back.Store.Update.{updated, Update-cases}
use spaceempire_back.Store.Tx.{ok}
use spaceempire_back.PlayersRepo.{update_cash, adjust_cash, update_reputation, add_reputation}

abbrev pub weigh_cash : (ℕ → ℕ) → List Player → ℕ
weigh_cash w [] = 0
weigh_cash w (p ∷ ps) = w p.id * p.cash + weigh_cash w ps

-- Only the table `players` differs.
abbrev pub PlayersOnly : Db → Db → Type 0
PlayersOnly db db' = db' ≡ record db { players = db'.players }

weigh_cash-update_cash :
    (w : ℕ → ℕ) (id : ℕ) (delta : ℤ) (ps : List Player) {n : ℕ} {ps' : List Player}
    → update_cash id delta ps ≡ updated n ps'
    → weigh_cash w ps' + w id * neg_part delta ≡ weigh_cash w ps + w id * pos_part delta
unfolding update_cash
weigh_cash-update_cash w id delta [] h = cc
weigh_cash-update_cash w id delta (p ∷ ps) h = elim (Bool-cases (p.id == id)) [
  | inl here ↦
      let same : w p.id ≡ w id = ap w (==→≡ p.id id here) in
      ground (arith, same, mul_change (w id) p.cash (pos_part delta) (neg_part delta))
  | inr later ↦ elim (Update-cases (update_cash id delta ps)) [
    | inl e ↦ ground arith
    | inr (inl e) ↦ ground arith
    | inr (inr (m, rest, e)) ↦ ground (arith, weigh_cash-update_cash w id delta ps e)
  ]
]

-- `delta` came to the player's wallet, and nothing else changed.
pub record Pays (id : ℕ) (delta : ℤ) (db db' : Db) : Type 0 where
  pub sums :
      (w : ℕ → ℕ)
      → weigh_cash w db'.players + w id * neg_part delta
        ≡ weigh_cash w db.players + w id * pos_part delta
  pub frame : PlayersOnly db db'

pub adjust_cash-Pays :
    (id : ℕ) (delta : ℤ) (db : Db) {n : ℕ} {db' : Db}
    → adjust_cash id delta db ≡ ok n db'
    → Pays id delta db db'
unfolding adjust_cash
adjust_cash-Pays id delta db {db' = db'} h = elim (Update-cases (update_cash id delta db.players)) [
  | inl e ↦ ground arith
  | inr (inl e) ↦ ground arith
  | inr (inr (m, rows, e)) ↦
      let after : db' ≡ record db { players = rows } = ground arith in
      rw after (record { sums = λ w. weigh_cash-update_cash w id delta db.players e; frame = refl })
]

weigh_cash-update_reputation :
    (w : ℕ → ℕ) (id war trade : ℕ) (ps : List Player) {n : ℕ} {ps' : List Player}
    → update_reputation id war trade ps ≡ updated n ps'
    → weigh_cash w ps' ≡ weigh_cash w ps
unfolding update_reputation
weigh_cash-update_reputation w id war trade [] h = cc
weigh_cash-update_reputation w id war trade (p ∷ ps) h =
    elim (Update-cases (update_reputation id war trade ps)) [
      | inl e ↦ ground arith
      | inr (inl e) ↦ ground arith
      | inr (inr (m, rest, e)) ↦ ground (arith, weigh_cash-update_reputation w id war trade ps e)
    ]

-- No wallet changes, and no other table.
pub record KeepsCash (db db' : Db) : Type 0 where
  pub sums : (w : ℕ → ℕ) → weigh_cash w db'.players ≡ weigh_cash w db.players
  pub frame : PlayersOnly db db'

pub add_reputation-KeepsCash :
    (id war trade : ℕ) (db : Db) {u : Unit {0}} {db' : Db}
    → add_reputation id war trade db ≡ ok u db'
    → KeepsCash db db'
unfolding add_reputation
add_reputation-KeepsCash id war trade db {db' = db'} h =
    elim (Update-cases (update_reputation id war trade db.players)) [
      | inl e ↦ ground arith
      | inr (inl e) ↦ ground arith
      | inr (inr (m, rows, e)) ↦
          let after : db' ≡ record db { players = rows } = ground arith in
          rw after (record {
            sums = λ w. weigh_cash-update_reputation w id war trade db.players e;
            frame = refl;
          })
    ]
