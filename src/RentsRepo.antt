-- ===== src/RentsRepo.antt =====
-- internal/persistence/rents/repo.go: what is owed for stations.
use spaceempire_back.Prelude.{
  ℕ, zero, suc, Bool, true, false, none, some, List, [], ◌∷◌, leb, ◌==◌, if◌then◌else◌, select,
}
use spaceempire_back.Domain.{EntityRef, ref_eq}
use spaceempire_back.Store.Tables.{Rent}
use spaceempire_back.Store.Tx.{Tx, ok, aborted}
use spaceempire_back.PlayersRepo.{find_player}
use spaceempire_back.AuctionRepo.{has_player}

-- The UNIQUE key on the station.
unfoldable pub has_rent : EntityRef → List Rent → Bool
has_rent ref [] = false
has_rent ref (r ∷ rs) = let rest = has_rent ref rs in if ref_eq r.station ref then true else rest

abbrev pub new_rent : ℕ → ℕ → EntityRef → ℕ → ℕ → Rent
new_rent id payer ref amount next = record {
  id = id;
  payer = payer;
  station = ref;
  amount_per_period = amount;
  unpaid_periods = 0;
  last_paid_at = none;
  next_due_at = next;
}

-- `ON CONFLICT (station_kind, station_id) DO NOTHING`. The BIGSERIAL is spent either way.
unfoldable pub ensure : ℕ → EntityRef → ℕ → ℕ → Tx (Unit {0})
ensure payer ref amount next db =
    if has_rent ref db.rents
    then ok tt (record db { next_rent_id = suc db.next_rent_id })
    else if has_player (find_player payer db.players)
    then ok tt (record db {
      rents = new_rent db.next_rent_id payer ref amount next ∷ db.rents;
      next_rent_id = suc db.next_rent_id;
    })
    else aborted

unfoldable pub insert_by_due : Rent → List Rent → List Rent
insert_by_due r [] = r ∷ []
insert_by_due r (x ∷ xs) =
    let rest = insert_by_due r xs in
    if leb r.next_due_at x.next_due_at then r ∷ x ∷ xs else x ∷ rest

unfoldable pub order_by_due : List Rent → List Rent
order_by_due [] = []
order_by_due (r ∷ rs) = insert_by_due r (order_by_due rs)

-- `LIMIT`
unfoldable pub limited : ℕ → List Rent → List Rent
limited n [] = []
limited zero (r ∷ rs) = []
limited (suc n) (r ∷ rs) = r ∷ limited n rs

unfoldable pub due_rows : ℕ → List Rent → List Rent
due_rows now rs = order_by_due (select (λ r. leb r.next_due_at now) rs)

unfoldable pub due : ℕ → ℕ → Tx (List Rent)
due now limit db = ok (limited limit (due_rows now db.rents)) db

unfoldable pub paid_rows : ℕ → ℕ → ℕ → List Rent → List Rent
paid_rows i paid next [] = []
paid_rows i paid next (r ∷ rs) =
    let rest = paid_rows i paid next rs in
    if r.id == i
    then record r { unpaid_periods = 0; last_paid_at = some paid; next_due_at = next } ∷ rest
    else r ∷ rest

unfoldable pub mark_paid : ℕ → ℕ → ℕ → Tx (Unit {0})
mark_paid i paid next db = ok tt (record db { rents = paid_rows i paid next db.rents })

unfoldable pub unpaid_rows : ℕ → ℕ → ℕ → List Rent → List Rent
unpaid_rows i periods next [] = []
unpaid_rows i periods next (r ∷ rs) =
    let rest = unpaid_rows i periods next rs in
    if r.id == i then record r { unpaid_periods = periods; next_due_at = next } ∷ rest else r ∷ rest

-- `unpaid_periods` is a SMALLINT.
unfoldable pub mark_unpaid : ℕ → ℕ → ℕ → Tx (Unit {0})
mark_unpaid i periods next db =
    if leb periods 32767
    then ok tt (record db { rents = unpaid_rows i periods next db.rents })
    else aborted

unfoldable pub without : ℕ → List Rent → List Rent
without i [] = []
without i (r ∷ rs) = let rest = without i rs in if r.id == i then rest else r ∷ rest

unfoldable pub delete_rent : ℕ → Tx (Unit {0})
delete_rent i db = ok tt (record db { rents = without i db.rents })
