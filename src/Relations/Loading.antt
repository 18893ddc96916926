-- ===== src/Relations/Loading.antt =====
-- internal/social/relations/service.go: what Precount reads into the maps.
use spaceempire_back.Prelude.{
  ℕ, Option, if◌then◌else◌, lookup, put, lookup-put_self, lookup-put_ne, ◌==◌, ==→≡, ◌≡◌, refl, ◌∙◌,
  subst, true, false, none, some, List, [], ◌∷◌, arith, Bool-cases, Option-cases, inl, inr, All,
  &&_true,
}
use spaceempire_back.Domain.{EntityKind, player, clan, EntityRef, ref_eq→≡}
use spaceempire_back.Relations.{
  Relation, StatusRow, Row, Member, SocialDb, Service, Reply, accepted, row_is, parse_status,
  load_rows, upsert_rows, delete_rows, declare, declare_all, declared_status, load_memberships,
  clan_ref_of,
}
use spaceempire_back.Relations.Table.{pair_is, pair_is_sym, stored, declared-declare}

abbrev Lacks : EntityRef → EntityRef → List StatusRow → Type 0
Lacks a b rs = All (λ r. row_is a b r ≡ false) rs

-- The primary key of the table.
abbrev pub Keyed : List StatusRow → Type 0
Keyed [] = Unit
Keyed (r ∷ rs) = Lacks r.from r.to rs × Keyed rs

stored_of_Lacks : (a b : EntityRef) (rs : List StatusRow) → Lacks a b rs → stored a b rs ≡ none
stored_of_Lacks a b [] h = refl
stored_of_Lacks a b (r ∷ rs) (away, h) = rw away (stored_of_Lacks a b rs h)

Lacks-of_pair :
    (x y a b : EntityRef) (rs : List StatusRow)
    → pair_is x y a b ≡ true
    → Lacks x y rs
    → Lacks a b rs
Lacks-of_pair x y a b rs h lacks =
    let (e, f) = &&_true _ _ h in
    subst (λ z. Lacks z b rs) (ref_eq→≡ x a e) (subst (λ z. Lacks x z rs) (ref_eq→≡ y b f) lacks)

module _ (a b : EntityRef) where
  Lacks-upsert :
      (c d : EntityRef) (v : Relation) (rs : List StatusRow)
      → pair_is a b c d ≡ false
      → Lacks c d rs
      → Lacks c d (upsert_rows a b v rs)
  unfolding upsert_rows
  Lacks-upsert c d v [] n h = (n, tt)
  Lacks-upsert c d v (r ∷ rs) n (away, h) = elim (Bool-cases (row_is a b r)) [
    | inl hit ↦ rw (upsert_rows, hit) (away, h)
    | inr miss ↦ rw (upsert_rows, miss) (away, Lacks-upsert c d v rs n h)
  ]

  pub Keyed-upsert : (v : Relation) (rs : List StatusRow) → Keyed rs → Keyed (upsert_rows a b v rs)
  unfolding upsert_rows
  Keyed-upsert v [] h = (tt, tt)
  Keyed-upsert v (r ∷ rs) (first, h) = elim (Bool-cases (row_is a b r)) [
    | inl hit ↦ rw (upsert_rows, hit) (first, h)
    | inr miss ↦
        rw (upsert_rows, miss)
          (
            Lacks-upsert r.from r.to v rs (pair_is_sym a b r.from r.to ∙ miss) first,
            Keyed-upsert v rs h,
          )
  ]

  Lacks-delete :
      (c d : EntityRef) (rs : List StatusRow) → Lacks c d rs → Lacks c d (delete_rows a b rs)
  unfolding delete_rows
  Lacks-delete c d [] h = tt
  Lacks-delete c d (r ∷ rs) (away, h) = elim (Bool-cases (row_is a b r)) [
    | inl hit ↦ rw (delete_rows, hit) (Lacks-delete c d rs h)
    | inr miss ↦ rw (delete_rows, miss) (away, Lacks-delete c d rs h)
  ]

  pub Keyed-delete : (rs : List StatusRow) → Keyed rs → Keyed (delete_rows a b rs)
  unfolding delete_rows
  Keyed-delete [] h = tt
  Keyed-delete (r ∷ rs) (first, h) = elim (Bool-cases (row_is a b r)) [
    | inl hit ↦ rw (delete_rows, hit) (Keyed-delete rs h)
    | inr miss ↦ rw (delete_rows, miss) (Lacks-delete r.from r.to rs first, Keyed-delete rs h)
  ]

  -- What the loaded map says of a pair.
  pub declared-load :
      (rs : List StatusRow) (m : List Row)
      → Keyed rs
      → declared_status a b (declare_all (load_rows rs) m)
        ≡ elim (stored a b rs) [ none ↦ declared_status a b m | some v ↦ some v ]
  unfolding load_rows declare_all
  declared-load [] m h = refl
  declared-load (r ∷ rs) m (first, h) = elim (Option-cases (parse_status r.status)) [
    | inl unknown ↦ elim (Bool-cases (row_is a b r)) [
      | inl hit ↦
          let absent = stored_of_Lacks a b rs (Lacks-of_pair r.from r.to a b rs hit first) in
          ground (arith, declared-load rs m h)
      | inr miss ↦ ground (arith, declared-load rs m h)
    ]
    | inr (v, known) ↦
        let later = declared-load rs (declare r.from r.to v m) h in
        let now = declared-declare r.from r.to a b v m in
        elim (Bool-cases (row_is a b r)) [
          | inl hit ↦
              let absent = stored_of_Lacks a b rs (Lacks-of_pair r.from r.to a b rs hit first) in
              ground arith
          | inr miss ↦ ground arith
        ]
  ]

-- The clan of a player by a table of members.
abbrev pub clan_in : ℕ → List Member → Option ℕ
clan_in p [] = none
clan_in p (m ∷ ms) = elim (clan_in p ms) [
  | some c ↦ some c
  | none ↦ if m.player_id == p then some m.clan_id else none
]

-- The clan of a player is the one of that row; nothing else has a clan.
abbrev pub member_of : List Member → EntityRef → Option EntityRef
member_of ms ref = elim ref.kind [
  | player ↦ elim (clan_in ref.id ms) [
    | none ↦ none
    | some c ↦ some (record { kind = clan; id = c })
  ]
  | _ ↦ none
]

-- The members as they are once the two reads were tried.
abbrev pub read_members : Reply → Reply → SocialDb → List Member → List Member
read_members accepted accepted db seen = db.clan_members
read_members _ _ db seen = seen

pub lookup-load_memberships :
    (p : ℕ) (ms : List Member) (m : List (ℕ × ℕ))
    → lookup p (load_memberships ms m) ≡ elim (clan_in p ms) [ some c ↦ some c | none ↦ lookup p m ]
unfolding load_memberships
lookup-load_memberships p [] m = refl
lookup-load_memberships p (r ∷ rs) m = elim (Bool-cases (r.player_id == p)) [
  | inl hit ↦
      let same = ==→≡ r.player_id p hit in
      let now : lookup p (put r.player_id r.clan_id m) ≡ some r.clan_id =
        subst (λ k. lookup k (put r.player_id r.clan_id m) ≡ some r.clan_id) same
          (lookup-put_self r.player_id r.clan_id m) in
      ground (arith, lookup-load_memberships p rs (put r.player_id r.clan_id m))
  | inr miss ↦
      let now = lookup-put_ne r.player_id p r.clan_id m (λ e. ground arith) in
      ground (arith, lookup-load_memberships p rs (put r.player_id r.clan_id m))
]

pub clan_ref_of-member_of :
    (s : Service) (seen : List Member)
    → ((p : ℕ) → lookup p s.player_clan ≡ clan_in p seen)
    → (ref : EntityRef) → clan_ref_of ref s ≡ member_of seen ref
unfolding clan_ref_of
clan_ref_of-member_of s seen h ref = by_kind ref.kind ref.id
  where
    by_kind :
        (k : EntityKind) (i : ℕ)
        → clan_ref_of (record { kind = k; id = i }) s ≡ member_of seen (record { kind = k; id = i })
    by_kind player i = rw (h i, clan_ref_of) refl
    by_kind _ i = refl
