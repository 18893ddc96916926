-- ===== src/Domain.antt =====
-- internal/domain: the kinds of entity, references to them, and the ids.
-- An id is a number here; the zero player is the sentinel for goods that nobody owns.
use spaceempire_back.Prelude.{
  ℕ, ◌≡◌, refl, ap, sym, ◌∙◌, Bool, true, ◌&&◌, arith, ◌==◌, if◌then◌else◌,
}

pub data EntityKind : Type 0 where
  unknown ship station shipyard trade_station pirbase drone laser_tower container : EntityKind
  player clan satellite torpedo jammer gate : EntityKind

-- The value of the constant, which is also the SMALLINT in the tables.
unfoldable pub kind_code : EntityKind → ℕ
kind_code unknown = 0
kind_code ship = 1
kind_code station = 2
kind_code shipyard = 3
kind_code trade_station = 4
kind_code pirbase = 5
kind_code drone = 6
kind_code laser_tower = 7
kind_code container = 8
kind_code player = 9
kind_code clan = 10
kind_code satellite = 11
kind_code torpedo = 12
kind_code jammer = 13
kind_code gate = 14

kind_of_code : ℕ → EntityKind
kind_of_code n =
    if n == 1
    then ship
    else if n == 2
    then station
    else if n == 3
    then shipyard
    else if n == 4
    then trade_station
    else if n == 5
    then pirbase
    else if n == 6
    then drone
    else if n == 7
    then laser_tower
    else if n == 8
    then container
    else if n == 9
    then player
    else if n == 10
    then clan
    else if n == 11
    then satellite
    else if n == 12
    then torpedo
    else if n == 13
    then jammer
    else if n == 14
    then gate
    else unknown

kind_of_code-kind_code : (k : EntityKind) → kind_of_code (kind_code k) ≡ k
unfolding kind_of_code kind_code
kind_of_code-kind_code unknown = refl
kind_of_code-kind_code _ = refl

pub kind_code-injective : (a b : EntityKind) → kind_code a ≡ kind_code b → a ≡ b
kind_code-injective a b h =
    sym (kind_of_code-kind_code a) ∙ ap kind_of_code h ∙ kind_of_code-kind_code b

pub record EntityRef : Type 0 where
  pub kind : EntityKind
  pub id : ℕ

-- `==` on references, as the WHERE clauses compare them.
unfoldable pub ref_eq : EntityRef → EntityRef → Bool
ref_eq a b = (kind_code a.kind == kind_code b.kind) && a.id == b.id

pub ref_eq_refl : (a : EntityRef) → ref_eq a a ≡ true
unfolding ref_eq
ref_eq_refl a = ground (arith)

pub ref_eq→≡ : (a b : EntityRef) → ref_eq a b ≡ true → a ≡ b
unfolding ref_eq
ref_eq→≡ a b h = ground (arith, kind_code-injective a.kind b.kind)

pub ref_eq_sym : (a b : EntityRef) → ref_eq a b ≡ ref_eq b a
unfolding ref_eq
ref_eq_sym a b = ground arith
