-- ===== src/Relations.antt =====
-- internal/social/relations and internal/domain/relation.go: declared relations between players and
-- clans, and who may attack whom. SocialDb holds the two tables that are read here. A statement may
-- be refused by the database, which is an argument of each call that runs one.
pub mod Text
pub mod Standing
pub mod Table
pub mod Loading
pub mod Cache
use Prim.Native.String.{String}
use text.Mathlib.Text.{◌==◌ as text_eq}
use spaceempire_back.Prelude.{
  ℕ, Bool, true, false, not, ◌&&◌, ◌||◌, Option, none, some, List, [], ◌∷◌, if◌then◌else◌, ltb, leb,
  find_row, lookup, put,
}
use spaceempire_back.Domain.{EntityKind, player, clan, EntityRef, ref_eq}

pub data Relation : Type 0 where
  friend neutral hostile at_war : Relation

-- The value of the constant, by which `>` and `>=` compare.
abbrev pub relation_code : Relation → ℕ
relation_code friend = 0
relation_code neutral = 1
relation_code hostile = 2
relation_code at_war = 3

abbrev pub is_hostile : Relation → Bool
is_hostile r = leb 2 (relation_code r)

abbrev pub exceeds : Relation → Relation → Bool
exceeds v best = ltb (relation_code best) (relation_code v)

unfoldable pub relation_text : Relation → String
relation_text friend = "friend"
relation_text neutral = "neutral"
relation_text hostile = "hostile"
relation_text at_war = "at_war"

unfoldable pub parse_status : String → Option Relation
parse_status s =
    if text_eq s "friend"
    then some friend
    else if text_eq s "hostile"
    then some hostile
    else if text_eq s "at_war"
    then some at_war
    else none

abbrev pub clan_ref : ℕ → EntityRef
clan_ref i = record { kind = clan; id = i }

pub record StatusRow : Type 0 where
  pub from : EntityRef
  pub to : EntityRef
  pub status : String

pub record Member : Type 0 where
  pub player_id : ℕ
  pub clan_id : ℕ

pub record SocialDb : Type 0 where
  pub relations : List StatusRow
  pub clan_members : List Member

-- A relation that was read, and an entry of the map `declared`, which is keyed by both ends.
pub record Row : Type 0 where
  pub from : EntityRef
  pub to : EntityRef
  pub status : Relation

pub record Service : Type 0 where
  pub declared : List Row
  pub player_clan : List (ℕ × ℕ)

pub data Reply : Type 0 where
  accepted refused : Reply

abbrev pub row_is : EntityRef → EntityRef → StatusRow → Bool
row_is a b r = ref_eq r.from a && ref_eq r.to b

abbrev pub entry_is : EntityRef → EntityRef → Row → Bool
entry_is a b r = ref_eq r.from a && ref_eq r.to b

-- The rows with a status text that is known.
unfoldable pub load_rows : List StatusRow → List Row
load_rows [] = []
load_rows (r ∷ rs) =
    let rest = load_rows rs in
    elim (parse_status r.status) [
      | none ↦ rest
      | some status ↦ record { from = r.from; to = r.to; status = status } ∷ rest
    ]

unfoldable pub upsert_rows : EntityRef → EntityRef → Relation → List StatusRow → List StatusRow
upsert_rows a b v [] = record { from = a; to = b; status = relation_text v } ∷ []
upsert_rows a b v (r ∷ rs) =
    let rest = upsert_rows a b v rs in
    if row_is a b r then record r { status = relation_text v } ∷ rs else r ∷ rest

unfoldable pub delete_rows : EntityRef → EntityRef → List StatusRow → List StatusRow
delete_rows a b [] = []
delete_rows a b (r ∷ rs) = let rest = delete_rows a b rs in if row_is a b r then rest else r ∷ rest

unfoldable pub load_memberships : List Member → List (ℕ × ℕ) → List (ℕ × ℕ)
load_memberships [] m = m
load_memberships (r ∷ rs) m = load_memberships rs (put r.player_id r.clan_id m)

unfoldable pub undeclare : EntityRef → EntityRef → List Row → List Row
undeclare a b [] = []
undeclare a b (r ∷ rs) = let rest = undeclare a b rs in if entry_is a b r then rest else r ∷ rest

unfoldable pub declare : EntityRef → EntityRef → Relation → List Row → List Row
declare a b v rs = record { from = a; to = b; status = v } ∷ undeclare a b rs

-- The loop of Precount over the rows, from a map that is begun.
unfoldable pub declare_all : List Row → List Row → List Row
declare_all [] m = m
declare_all (r ∷ rs) m = declare_all rs (declare r.from r.to r.status m)

unfoldable pub declared_status : EntityRef → EntityRef → List Row → Option Relation
declared_status a b [] = none
declared_status a b (r ∷ rs) =
    let rest = declared_status a b rs in if entry_is a b r then some r.status else rest

-- The replies are those of the two reads.
unfoldable pub precount : Reply → Reply → SocialDb → Service → Bool × Service
precount refused _ db s = (false, s)
precount accepted refused db s = (false, s)
precount accepted accepted db s = (
  true,
  record {
    declared = declare_all (load_rows db.relations) [];
    player_clan = load_memberships db.clan_members [];
  },
)

unfoldable pub clan_ref_of : EntityRef → Service → Option EntityRef
clan_ref_of ref s = elim ref.kind [
  | player ↦ elim (lookup ref.id s.player_clan) [ none ↦ none | some c ↦ some (clan_ref c) ]
  | _ ↦ none
]

-- The more hostile of two statuses, the first of two that are equal.
unfoldable pub worse : Option Relation → Option Relation → Option Relation
worse none back = back
worse (some v) none = some v
worse (some v) (some w) = if exceeds w v then some w else some v

unfoldable pub declared_between : EntityRef → EntityRef → Service → Option Relation
declared_between x y s = worse (declared_status x y s.declared) (declared_status y x s.declared)

-- The variables that `consider` assigns in Get.
pub record Tally : Type 0 where
  pub worst : Relation
  pub any_hostile : Bool
  pub any_friend : Bool

unfoldable pub consider : Option Relation → Tally → Tally
consider none t = t
consider (some v) t =
    if is_hostile v
    then record t { any_hostile = true; worst = if exceeds v t.worst then v else t.worst }
    else elim v [ friend ↦ record t { any_friend = true } | _ ↦ t ]

abbrev pub no_relation : Tally
no_relation = record { worst = neutral; any_hostile = false; any_friend = false }

unfoldable pub conclude : Tally → Relation
conclude t = if t.any_hostile then t.worst else if t.any_friend then friend else neutral

unfoldable pub same_clan : Option EntityRef → Option EntityRef → Bool
same_clan (some c) (some d) = ref_eq c d
same_clan _ _ = false

unfoldable pub between_clans : Option EntityRef → Option EntityRef → Service → Option Relation
between_clans (some c) (some d) s = declared_between c d s
between_clans _ _ s = none

unfoldable pub get : EntityRef → EntityRef → Service → Relation
get a b s =
    if ref_eq a b
    then friend
    else if same_clan (clan_ref_of a s) (clan_ref_of b s)
    then friend
    else conclude (
        consider (between_clans (clan_ref_of a s) (clan_ref_of b s) s)
          (consider (declared_between a b s) no_relation))

unfoldable pub may_attack : EntityRef → EntityRef → Service → Bool
may_attack a b s = is_hostile (get a b s)

unfoldable pub upsert : EntityRef → EntityRef → Relation → SocialDb → SocialDb
upsert a b v db = record db { relations = upsert_rows a b v db.relations }

unfoldable pub delete_relation : EntityRef → EntityRef → SocialDb → SocialDb
delete_relation a b db = record db { relations = delete_rows a b db.relations }

-- The Boolean says that there was no error.
unfoldable pub set :
    Reply → EntityRef → EntityRef → Relation → SocialDb → Service → Bool × SocialDb × Service
set refused a b v db s = (false, db, s)
set accepted a b neutral db s =
    (true, delete_relation a b db, record s { declared = undeclare a b s.declared })
set accepted a b v db s = (true, upsert a b v db, record s { declared = declare a b v s.declared })
