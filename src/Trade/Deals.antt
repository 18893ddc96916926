-- ===== src/Trade/Deals.antt =====
-- The writes of a deal, and what they leave alone. A wallet, a shelf and the stock of all
-- stations are weighted sums over `players` and `station_goods`.
use spaceempire_back.Prelude.{
  ℕ, ◌+◌, ◌*◌, ◌≡◌, refl, ap, subst, ◌∙◌, ◌&&◌, List, arith, ◌==◌, if◌then◌else◌, Bool-cases, inl,
  inr,
}
use spaceempire_back.Prelude.Int.{ℤ, pos, pos_part, neg_part, neg, wrap_i64, neg_i64}
use spaceempire_back.Domain.{EntityRef, ref_eq}
use spaceempire_back.Store.Tables.{CargoKey, MarketEntry, Player, Db}
use spaceempire_back.Store.Tx.{Tx, ok, and_then-eq-ok, Error, Outcome}
use spaceempire_back.PlayersRepo
use spaceempire_back.PlayersRepo.Effects.{
  weigh_cash, Pays, KeepsCash, adjust_cash-Pays, add_reputation-KeepsCash,
}
use spaceempire_back.MarketRepo
use spaceempire_back.MarketRepo.Effects.{weigh_stock, Stocks, adjust_stock-Stocks}
use spaceempire_back.CargoRepo
use spaceempire_back.CargoRepo.{unowned_goods, cargo_key}
use spaceempire_back.CargoRepo.Weights.{weigh}
use spaceempire_back.CargoRepo.Effects.{Gains, Loses, add-Gains, subtract-Loses}
use spaceempire_back.Trade.{
  Receipt, relabel, ship_ref, award_trade_reputation, trade_delta, settle_buy, settle_sell,
  no_cargo,
}

-- The cash of one player.
unfoldable pub wallet : ℕ → List Player → ℕ
wallet id = weigh_cash (λ x. if x == id then 1 else 0)

-- The stock of one good at one station.
unfoldable pub shelf : EntityRef → ℕ → List MarketEntry → ℕ
shelf owner g = weigh_stock (λ o h. if ref_eq o owner && h == g then 1 else 0)

-- The stock of one good at all stations.
unfoldable pub all_stock : ℕ → List MarketEntry → ℕ
all_stock g = weigh_stock (λ o h. if h == g then 1 else 0)

-- `db` with the wallets, stocks and cargo of `db'`.
abbrev with_deal : Db → Db → Db
with_deal db db' = record db {
  players = db'.players;
  station_goods = db'.station_goods;
  cargo = db'.cargo;
}

-- Only wallets, stocks and cargo may differ.
abbrev pub DealOnly : Db → Db → Type 0
DealOnly db db' = db' ≡ with_deal db db'

DealOnly-trans : (a b c : Db) → DealOnly a b → DealOnly b c → DealOnly a c
DealOnly-trans a b c p q = q ∙ ap (λ (x : Db). with_deal x c) p

of_frame : (a b : Db) (x : Db) → b ≡ x → with_deal x b ≡ with_deal a b → DealOnly a b
of_frame a b x p e = ap (λ (y : Db). with_deal y b) p ∙ e

-- The three sums after a deal that moved `paid` into the wallet, `moved` onto the shelf and
-- `gained` into the hold, less what left them.
pub record Deal (player ship_id : ℕ) (at : EntityRef) (g : ℕ) (cash stock : ℤ) (gain loss : ℕ)
    (db db' : Db) : Type 0 where
  pub cash_sums :
      (w : ℕ → ℕ)
      → weigh_cash w db'.players + w player * neg_part cash
        ≡ weigh_cash w db.players + w player * pos_part cash
  pub stock_sums :
      (w : EntityRef → ℕ → ℕ)
      → weigh_stock w db'.station_goods + w at g * neg_part stock
        ≡ weigh_stock w db.station_goods + w at g * pos_part stock
  pub cargo_sums :
      (w : CargoKey → ℕ)
      → weigh w db'.cargo + w (cargo_key (ship_ref ship_id) g unowned_goods) * loss
        ≡ weigh w db.cargo + w (cargo_key (ship_ref ship_id) g unowned_goods) * gain
  pub frame : DealOnly db db'

award-KeepsCash :
    (player : ℕ) (total : ℤ) (db : Db) {u : Unit {0}} {db' : Db}
    → award_trade_reputation player total db ≡ ok u db'
    → KeepsCash db db'
unfolding award_trade_reputation
award-KeepsCash player total db {u = u} {db' = db'} h = elim (Bool-cases (trade_delta total == 0)) [
  | inl nothing ↦
      let same : db' ≡ db = ground arith in rw same (record { sums = λ w. refl; frame = refl })
  | inr some_ ↦
      let s : PlayersRepo.add_reputation player 0 (trade_delta total) db ≡ ok u db' =
        ground arith in
      add_reputation-KeepsCash player 0 (trade_delta total) db s
]

pub relabel-ok {ℓ} :
    {A : Type ℓ} (f : Error → Error) (m : Tx A) (db : Db) {a : A} {db' : Db}
    → relabel f m db ≡ ok a db'
    → m db ≡ ok a db'
relabel-ok f m db h = ground arith

-- The last line of both deals.
receipt_of :
    (P : Db → Type 0) (unit : ℕ) (total : ℤ) (d : Db) {cash stock : ℕ} {r : Receipt} {db' : Db}
    → P d
    → ◌≡◌ {A = Outcome Receipt}
        (ok
          (record { new_cash = cash; new_stock = stock; unit_price = unit; total_amount = total })
          d)
        (ok r db')
    → P db' × (r.unit_price ≡ unit) × (r.total_amount ≡ total)
receipt_of P unit total d {db' = db'} p h =
    let same : d ≡ db' = cc in (subst P same p, ground arith, ground arith)

module _ (player ship_id : ℕ) (at : EntityRef) (g q : ℕ) (cash stock : ℤ) (db a b c d : Db)
    (kept : KeepsCash c d) where
  buy_steps :
      Pays player cash db a
      → Stocks at g stock a b
      → Gains (cargo_key (ship_ref ship_id) g unowned_goods) q b c
      → Deal player ship_id at g cash stock q 0 db d
  buy_steps paid stocked gained = record {
    cash_sums = λ w.
        let same : c.players ≡ a.players =
          ap (λ (x : Db). x.players) gained.frame ∙ ap (λ (x : Db). x.players) stocked.frame in
        omega (arith, kept.sums w, ap (weigh_cash w) same, paid.sums w);
    stock_sums = λ w.
        let before : a.station_goods ≡ db.station_goods =
          ap (λ (x : Db). x.station_goods) paid.frame in
        let after : d.station_goods ≡ b.station_goods =
          ap (λ (x : Db). x.station_goods) kept.frame
          ∙ ap (λ (x : Db). x.station_goods) gained.frame in
        omega (arith, ap (weigh_stock w) before, ap (weigh_stock w) after, stocked.sums w);
    cargo_sums = λ w.
        let before : b.cargo ≡ db.cargo =
          ap (λ (x : Db). x.cargo) stocked.frame ∙ ap (λ (x : Db). x.cargo) paid.frame in
        let after : d.cargo ≡ c.cargo = ap (λ (x : Db). x.cargo) kept.frame in
        omega (arith, ap (weigh w) before, ap (weigh w) after, gained.sums w);
    frame = DealOnly-trans db a d (of_frame db a _ paid.frame refl) (
        DealOnly-trans a b d (of_frame a b _ stocked.frame refl) (
          DealOnly-trans b c d (of_frame b c _ gained.frame refl)
            (of_frame c d _ kept.frame refl)));
  }

  sell_steps :
      Loses (cargo_key (ship_ref ship_id) g unowned_goods) q db a
      → Stocks at g stock a b
      → Pays player cash b c
      → Deal player ship_id at g cash stock 0 q db d
  sell_steps lost stocked paid = record {
    cash_sums = λ w.
        let same : b.players ≡ db.players =
          ap (λ (x : Db). x.players) stocked.frame ∙ ap (λ (x : Db). x.players) lost.frame in
        omega (arith, kept.sums w, ap (weigh_cash w) same, paid.sums w);
    stock_sums = λ w.
        let before : a.station_goods ≡ db.station_goods =
          ap (λ (x : Db). x.station_goods) lost.frame in
        let after : d.station_goods ≡ b.station_goods =
          ap (λ (x : Db). x.station_goods) kept.frame
          ∙ ap (λ (x : Db). x.station_goods) paid.frame in
        omega (arith, ap (weigh_stock w) before, ap (weigh_stock w) after, stocked.sums w);
    cargo_sums = λ w.
        let after : d.cargo ≡ a.cargo =
          ap (λ (x : Db). x.cargo) kept.frame
          ∙ (ap (λ (x : Db). x.cargo) paid.frame ∙ ap (λ (x : Db). x.cargo) stocked.frame) in
        omega (arith, ap (weigh w) after, lost.sums w);
    frame = DealOnly-trans db a d (of_frame db a _ lost.frame refl) (
        DealOnly-trans a b d (of_frame a b _ stocked.frame refl)
          (DealOnly-trans b c d (of_frame b c _ paid.frame refl) (of_frame c d _ kept.frame refl)));
  }

module _ (player ship_id : ℕ) (at : EntityRef) (g q unit : ℕ) (db : Db) {r : Receipt}
    {db' : Db} where
  pub settle_buy-Deal :
      settle_buy player ship_id at g q unit db ≡ ok r db'
      → Deal player ship_id at g (neg_i64 (wrap_i64 (unit * q))) (neg q) q 0 db db'
        × (r.unit_price ≡ unit)
        × (r.total_amount ≡ wrap_i64 (unit * q))
  unfolding settle_buy
  settle_buy-Deal h =
      let total : ℤ = wrap_i64 (unit * q) in
      let (cash, a, first, h₁) =
        and_then-eq-ok (PlayersRepo.adjust_cash player (neg_i64 total) db) _ h in
      let (stock, b, second, h₂) = and_then-eq-ok (MarketRepo.adjust_stock at g (neg q) a) _ h₁ in
      let (u, c, third, h₃) =
        and_then-eq-ok (CargoRepo.add (ship_ref ship_id) g q unowned_goods b) _ h₂ in
      let (v, d, fourth, h₄) = and_then-eq-ok (award_trade_reputation player total c) _ h₃ in
      let deal : Deal player ship_id at g (neg_i64 total) (neg q) q 0 db d =
        buy_steps player ship_id at g q (neg_i64 total) (neg q) db a b c d
          (award-KeepsCash player total c fourth) (adjust_cash-Pays player (neg_i64 total) db first)
          (adjust_stock-Stocks at g (neg q) a second)
          (add-Gains (ship_ref ship_id) g q unowned_goods b third) in
      receipt_of (λ x. Deal player ship_id at g (neg_i64 total) (neg q) q 0 db x) unit total d deal
        h₄

  pub settle_sell-Deal :
      settle_sell player ship_id at g q unit db ≡ ok r db'
      → Deal player ship_id at g (wrap_i64 (unit * q)) (pos q) 0 q db db'
        × (r.unit_price ≡ unit)
        × (r.total_amount ≡ wrap_i64 (unit * q))
  unfolding settle_sell
  settle_sell-Deal h =
      let total : ℤ = wrap_i64 (unit * q) in
      let (o, a, first, h₁) =
        and_then-eq-ok
          (relabel no_cargo (CargoRepo.subtract (ship_ref ship_id) g q unowned_goods) db) _ h in
      let (stock, b, second, h₂) = and_then-eq-ok (MarketRepo.adjust_stock at g (pos q) a) _ h₁ in
      let (cash, c, third, h₃) = and_then-eq-ok (PlayersRepo.adjust_cash player total b) _ h₂ in
      let (v, d, fourth, h₄) = and_then-eq-ok (award_trade_reputation player total c) _ h₃ in
      let deal : Deal player ship_id at g total (pos q) 0 q db d =
        sell_steps player ship_id at g q total (pos q) db a b c d
          (award-KeepsCash player total c fourth)
          (subtract-Loses (ship_ref ship_id) g q unowned_goods db (
            relabel-ok no_cargo (CargoRepo.subtract (ship_ref ship_id) g q unowned_goods) db first))
          (adjust_stock-Stocks at g (pos q) a second) (adjust_cash-Pays player total b third) in
      receipt_of (λ x. Deal player ship_id at g total (pos q) 0 q db x) unit total d deal h₄
