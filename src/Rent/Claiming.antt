-- ===== src/Rent/Claiming.antt =====
-- internal/economy/rent/service.go: Claim.
use spaceempire_back.Prelude.{
  ℕ, suc, ◌+◌, ◌*◌, ◌≡◌, refl, subst, ◌⊎◌, inl, inr, Bool, true, false, not, List, ◌∷◌, arith,
  if◌then◌else◌, Bool-cases, Option-cases, ◌≢◌, some, none, [], ◌==◌, ==→≡, Any, All, Rowwise,
}
use spaceempire_back.Prelude.Int.{pos_part-neg, neg_part-neg, neg}
use spaceempire_back.Domain.{ref_eq, ref_eq→≡, EntityRef, ref_eq_refl}
use spaceempire_back.Store.Tables.{Player, Rent, Station, Db}
use spaceempire_back.Store.Tx.{
  Tx, ◌>>=◌, ok, fail, done, and_then-eq-ok, run_tx-done, raise, pure, station_owned,
}
use spaceempire_back.PlayersRepo.{adjust_cash}
use spaceempire_back.PlayersRepo.Effects.{weigh_cash, adjust_cash-Pays}
use spaceempire_back.StationsRepo.{claim_unowned, claim_station, has_unowned, take_rows}
use spaceempire_back.RentsRepo.{has_rent, new_rent, ensure}
use spaceempire_back.Rent.{Config, no_funds, station_ref, claim_in, claim}
use spaceempire_back.Trade.{relabel}
use spaceempire_back.Trade.Deals.{relabel-ok}

claim_station-takes :
    (i owner : ℕ) (db : Db) {b : Bool} {db' : Db}
    → claim_station i owner db ≡ ok b db'
    → ((b ≡ true)
        × (has_unowned i db.stations ≡ true)
        × (db' ≡ record db { stations = take_rows i owner db.stations }))
      ⊎ ((b ≡ false) × (db' ≡ db))
unfolding claim_station
claim_station-takes i owner db h = ground arith

-- Who owes for a station once Ensure is done.
pub record Owes (payer : ℕ) (ref : EntityRef) (amount next : ℕ) (db db' : Db) : Type 0 where
  pub rents : List Rent
  pub written : db' ≡ record db { rents = rents; next_rent_id = suc db.next_rent_id }
  pub owed : has_rent ref rents ≡ true
  pub kept : has_rent ref db.rents ≡ true → rents ≡ db.rents
  pub fresh :
      has_rent ref db.rents ≡ false
      → rents ≡ new_rent db.next_rent_id payer ref amount next ∷ db.rents

pub ensure-Owes :
    (payer : ℕ) (ref : EntityRef) (amount next : ℕ) (db : Db) {u : Unit {0}} {db' : Db}
    → ensure payer ref amount next db ≡ ok u db'
    → Owes payer ref amount next db db'
unfolding ensure has_rent
ensure-Owes payer ref amount next db {db' = db'} h = elim (Bool-cases (has_rent ref db.rents)) [
  | inl there ↦ record {
    rents = db.rents;
    written = ground arith;
    owed = there;
    kept = λ _. refl;
    fresh = λ e. cc;
  }
  | inr absent ↦ record {
    rents = new_rent db.next_rent_id payer ref amount next ∷ db.rents;
    written = ground arith;
    owed = rw (has_rent, ref_eq_refl ref) refl;
    kept = λ e. cc;
    fresh = λ _. refl;
  }
]

-- The rows of the station that had no owner have it now, and the other rows are as they were.
abbrev pub Taking : ℕ → ℕ → Station → Station → Type 0
Taking i owner s s' =
    ((s.id ≡ i) × (s.owner_id ≡ none) × (s' ≡ record s { owner_id = some owner }))
    ⊎ (((s.id ≢ i) ⊎ (s.owner_id ≢ none)) × (s' ≡ s))

abbrev pub Unowned : ℕ → Station → Type 0
Unowned i s = (s.id ≡ i) × (s.owner_id ≡ none)

take_rows-Taking :
    (i owner : ℕ) (ss : List Station) → Rowwise (Taking i owner) ss (take_rows i owner ss)
unfolding take_rows
take_rows-Taking i owner [] = tt
take_rows-Taking i owner (s ∷ ss) = elim (Bool-cases (s.id == i)) [
  | inr other ↦
      rw (other, take_rows) (inr (inl (λ e. ground arith), refl), take_rows-Taking i owner ss)
  | inl hit ↦ elim (Option-cases s.owner_id) [
    | inl free ↦
        rw (hit, free, take_rows) (inl (==→≡ s.id i hit, refl, refl), take_rows-Taking i owner ss)
    | inr (p, held) ↦
        rw (hit, held, take_rows) (inr (inr (λ e. cc), refl), take_rows-Taking i owner ss)
  ]
]

has_unowned-Any : (i : ℕ) (ss : List Station) → has_unowned i ss ≡ true → Any (Unowned i) ss
unfolding has_unowned
has_unowned-Any i [] h = ground arith
has_unowned-Any i (s ∷ ss) h = elim (Option-cases s.owner_id) [
  | inl free ↦ ground (arith, has_unowned-Any i ss)
  | inr (p, held) ↦ ground (arith, has_unowned-Any i ss)
]

abbrev pub IsRentOf : EntityRef → Rent → Type 0
IsRentOf ref r = r.station ≡ ref

has_rent-Any : (ref : EntityRef) (rs : List Rent) → has_rent ref rs ≡ true → Any (IsRentOf ref) rs
unfolding has_rent
has_rent-Any ref [] h = ground arith
has_rent-Any ref (r ∷ rs) h = elim (Bool-cases (ref_eq r.station ref)) [
  | inl hit ↦ inl (ref_eq→≡ r.station ref hit)
  | inr miss ↦ inr (has_rent-Any ref rs (rw miss at h))
]

has_rent-All :
    (ref : EntityRef) (rs : List Rent) → has_rent ref rs ≡ false → All (λ r. r.station ≢ ref) rs
unfolding has_rent
has_rent-All ref [] h = tt
has_rent-All ref (r ∷ rs) h = elim (Bool-cases (ref_eq r.station ref)) [
  | inl hit ↦ ground arith
  | inr miss ↦ (
    (λ e. let same = subst (λ x. ref_eq r.station x ≡ true) e (ref_eq_refl r.station) in cc),
    has_rent-All ref rs (rw miss at h),
  )
]

module _ (cfg : Config) (player i now : ℕ) (db : Db) where
  -- The station had no owner and has the player, who paid the price; a rent of the station is owed,
  -- a new one of the player if there was none.
  pub record Claimed (db' : Db) : Type 0 where
    pub wallets : List Player
    pub stations : List Station
    pub rents : List Rent
    pub was_unowned : Any (Unowned i) db.stations
    pub taken : Rowwise (Taking i player) db.stations stations
    pub charged :
        (w : ℕ → ℕ) → weigh_cash w wallets + w player * cfg.claim_price ≡ weigh_cash w db.players
    pub owes :
        (Any (IsRentOf (station_ref i)) db.rents × (rents ≡ db.rents))
        ⊎ (All (λ r. r.station ≢ station_ref i) db.rents
            × (rents
                ≡ record {
                  id = db.next_rent_id;
                  payer = player;
                  station = station_ref i;
                  amount_per_period = cfg.default_amount;
                  unpaid_periods = 0;
                  last_paid_at = none;
                  next_due_at = now + cfg.period;
                }
                  ∷ db.rents))
    pub frame : db' ≡ record db {
      stations = stations;
      players = wallets;
      rents = rents;
      next_rent_id = suc db.next_rent_id;
    }

  abbrev owned_by_player : Db
  owned_by_player = record db { stations = take_rows i player db.stations }

  abbrev pay : Tx ℕ
  pay = relabel no_funds (adjust_cash player (neg cfg.claim_price))

  abbrev owe : Tx (Unit {0})
  owe = ensure player (station_ref i) cfg.default_amount (now + cfg.period)

  bill-Claimed :
      has_unowned i db.stations ≡ true
      → {u : Unit {0}} {db' : Db} → (pay >>= λ _. owe) owned_by_player ≡ ok u db'
      → Claimed db'
  bill-Claimed unowned {u} {db'} h =
      let (_, paid, charged, last) = and_then-eq-ok (pay owned_by_player) _ h in
      let pays =
        adjust_cash-Pays player (neg cfg.claim_price) owned_by_player (
          relabel-ok no_funds (adjust_cash player (neg cfg.claim_price)) owned_by_player charged) in
      let owing =
        subst (λ x. Owes player (station_ref i) cfg.default_amount (now + cfg.period) x db')
          pays.frame
          (ensure-Owes player (station_ref i) cfg.default_amount (now + cfg.period) paid last) in
      record {
        wallets = paid.players;
        stations = take_rows i player db.stations;
        rents = owing.rents;
        was_unowned = has_unowned-Any i db.stations unowned;
        taken = take_rows-Taking i player db.stations;
        charged = λ w.
            let s = rw (neg_part-neg cfg.claim_price) at (pays.sums w) in
            let t = rw (pos_part-neg cfg.claim_price) at s in omega (arith, t);
        owes = elim (Bool-cases (has_rent (station_ref i) db.rents)) [
          | inl there ↦ inl (has_rent-Any (station_ref i) db.rents there, owing.kept there)
          | inr absent ↦ inr (has_rent-All (station_ref i) db.rents absent, owing.fresh absent)
        ];
        frame = owing.written;
      }

  -- A claim succeeds only for a station that has a row without an owner; such rows have the
  -- player as their owner, other rows are as they were, the player has paid exactly the claim
  -- price while every other wallet is as it was, and a rent of the station is owed: the rents are
  -- as they were if there was one, else a new one of the player, due a period later, stands
  -- before them. Nothing else changes but the sequence of rent ids.
  pub claim_takes :
      {u : Unit {0}} {db' : Db} → claim cfg player i now db ≡ (done u, db') → Claimed db'
  unfolding claim claim_in claim_unowned
  claim_takes {u} {db'} h =
      let (b, taken, first, h₁) =
        and_then-eq-ok (claim_station i player db) _
          (run_tx-done (claim_in cfg player i now) db h) in
      elim (claim_station-takes i player db first) [
        | inl (yes_, unowned, after) ↦ bill-Claimed unowned (
            subst (λ x. (pay >>= λ _. owe) x ≡ ok u db') after
              (subst
                (λ x.
                  ((if not x then raise station_owned else pure tt) >>= λ _. pay >>= λ _. owe) taken
                  ≡ ok u db')
                yes_ h₁))
        | inr (no_, same) ↦ refused (
            subst
              (λ x.
                ((if not x then raise station_owned else pure tt) >>= λ _. pay >>= λ _. owe) taken
                ≡ ok u db')
              no_ h₁)
      ]
    where
      refused :
          {db₀ : Db} {u : Unit {0}} {db' : Db} → fail station_owned db₀ ≡ ok u db' → Claimed db'
      refused e = ground arith
