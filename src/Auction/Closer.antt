-- ===== src/Auction/Closer.antt =====
-- internal/economy/auction/closer.go: one batch of the background closer.
use spaceempire_back.Prelude.{ℕ, ◌≡◌, refl, ap, ◌∙◌, List, [], ◌∷◌}
use spaceempire_back.Store.Tables.{Db}
use spaceempire_back.Store.Tx.{Result, done, err, run_tx, run_tx-err}
use spaceempire_back.AuctionRepo.{list_due}
use spaceempire_back.Auction.{close_in, close, due_lots}
use spaceempire_back.Auction.Escrow.{all_cash, all_goods}
use spaceempire_back.Auction.Endings.{close-conserves}

abbrev pub closer_batch : ℕ
closer_batch = 100

abbrev after {ℓ} : {A : Type ℓ} → Result A × Db → Db
after (r, db) = db

-- The loop over the ids: an error of one lot is logged, and the next lot is closed.
unfoldable pub close_lots : List ℕ → Db → Db
close_lots [] db = db
close_lots (id ∷ ids) db = close_lots ids (after (close id db))

abbrev on_due : Result (List ℕ) × Db → Db
on_due (done ids, db) = close_lots ids db
on_due (err e, db) = db

unfoldable pub tick : ℕ → Db → Db
tick now db = on_due (due_lots now closer_batch db)

-- The same cash and the same goods.
abbrev pub Conserved : Db → Db → Type 0
Conserved db db' = (all_cash db' ≡ all_cash db) × ((g : ℕ) → all_goods g db' ≡ all_goods g db)

pub Conserved-trans : (a b c : Db) → Conserved a b → Conserved b c → Conserved a c
Conserved-trans a b c (p, q) (r, s) = (r ∙ p, λ g. s g ∙ q g)

close-Conserved :
    (id : ℕ) (db : Db) (answer : Result (Unit {0}) × Db)
    → close id db ≡ answer
    → Conserved db (after answer)
unfolding close
close-Conserved id db (done u, db') h = close-conserves id db h
close-Conserved id db (err e, db') h =
    let same : db' ≡ db = run_tx-err (close_in id) db h in
    (ap all_cash same, λ g. ap (all_goods g) same)

close_lots-Conserved : (ids : List ℕ) (db : Db) → Conserved db (close_lots ids db)
unfolding close_lots
close_lots-Conserved [] db = (refl, λ g. refl)
close_lots-Conserved (id ∷ ids) db =
    Conserved-trans db (after (close id db)) (close_lots ids (after (close id db)))
      (close-Conserved id db (close id db) refl) (close_lots-Conserved ids (after (close id db)))

-- A batch of the closer, whatever lots are due and whichever of them fail to close, loses no cash
-- and no goods: wallets and escrow, and holds, shelves and open lots, are together what they were.
pub tick-conserves :
    (now : ℕ) (db : Db)
    → (all_cash (tick now db) ≡ all_cash db)
      × ((g : ℕ) → all_goods g (tick now db) ≡ all_goods g db)
unfolding tick due_lots run_tx list_due
tick-conserves now db = close_lots-Conserved _ db
