-- ===== src/Production/Ticks.antt =====
-- internal/economy/production/service.go: Tick, and the table against the stations in memory.
use spaceempire_back.Prelude.{
  ℕ, ◌≡◌, ◌≢◌, refl, subst, sym, ap, ◌∙◌, ◌⊎◌, inl, inr, Bool, true, false, List, [], ◌∷◌, All,
}
use spaceempire_back.Store.Tables.{Db}
use spaceempire_back.Production.{Recipe, Station, Turn, turn, tick}
use spaceempire_back.Production.Rows.{row_of, RowAgrees, set_production_self, set_production_other}
use spaceempire_back.Production.Turns.{turn-TurnDone}

abbrev pub Agrees : Db → Station → Type 0
Agrees db st = RowAgrees st (row_of st.id db.stations)

-- No two of the stations share an id.
abbrev pub DistinctStations : List Station → Type 0
DistinctStations [] = Unit
DistinctStations (st ∷ sts) = All (λ x. x.id ≢ st.id) sts × DistinctStations sts

-- The station is in progress in memory only: the commit of its start failed, and its row is what it
-- was.
abbrev pub OnlyInMemory : (ℕ → Bool) → Db → Db → Station → Type 0
OnlyInMemory commits before after st =
    (commits st.id ≡ false)
    × (st.in_progress ≡ true)
    × (row_of st.id after.stations ≡ row_of st.id before.stations)

module _ (recipes : List Recipe) (commits : ℕ → Bool) (now : ℕ) where
  abbrev turn_of : Station → Db → Turn
  turn_of st db = turn recipes now (commits st.id) st db

  turn-id : (st : Station) (db : Db) → (turn_of st db).station.id ≡ st.id
  turn-id st db = elim (turn-TurnDone recipes now (commits st.id) st db) [
    | inl (memory, same) ↦ ap {A = Station} (λ x. x.id) memory
    | inr (inl (p, n, t)) ↦ ap {A = Station} (λ x. x.id) t.memory
    | inr (inr d) ↦ ap {A = Station} (λ x. x.id) d.memory
  ]

  turn-Agrees :
      (st : Station) (db : Db)
      → Agrees db st
      → Agrees (turn_of st db).db (turn_of st db).station
        ⊎ OnlyInMemory commits db (turn_of st db).db (turn_of st db).station
  turn-Agrees st db h = elim (turn-TurnDone recipes now (commits st.id) st db) [
    | inl (memory, same) ↦ inl (rw (memory, same) h)
    | inr (inl (p, n, t)) ↦ inl (rw (t.rows, t.memory) (set_production_self st p n db.stations))
    | inr (inr d) ↦ inr (rw (d.memory, d.kept) (d.failed, refl, refl))
  ]

  turn-row_of :
      (st : Station) (db : Db) (j : ℕ)
      → j ≢ st.id
      → row_of j (turn_of st db).db.stations ≡ row_of j db.stations
  turn-row_of st db j away = elim (turn-TurnDone recipes now (commits st.id) st db) [
    | inl (memory, same) ↦ ap {A = Db} (λ x. row_of j x.stations) same
    | inr (inl (p, n, t)) ↦ ap (row_of j) t.rows ∙ set_production_other st.id j p n db.stations away
    | inr (inr d) ↦ ap {A = Db} (λ x. row_of j x.stations) d.kept
  ]

  others-Agree :
      (st : Station) (db : Db) (sts : List Station)
      → All (λ x. x.id ≢ st.id) sts
      → All (Agrees db) sts
      → All (Agrees (turn_of st db).db) sts
  others-Agree st db [] _ _ = tt
  others-Agree st db (x ∷ sts) (away, later) (h, hs) =
      (rw (turn-row_of st db x.id away) h, others-Agree st db sts later hs)

  tick-row_of :
      (j : ℕ) (sts : List Station) (db : Db)
      → All (λ x. x.id ≢ j) sts
      → row_of j (tick recipes commits now sts db).db.stations ≡ row_of j db.stations
  unfolding tick
  tick-row_of j [] db h = refl
  tick-row_of j (st ∷ sts) db (away, later) =
      tick-row_of j sts (turn_of st db).db later ∙ turn-row_of st db j (λ e. away (sym e))

  abbrev pub After : Db → Db → Station → Type 0
  After before after st = Agrees after st ⊎ OnlyInMemory commits before after st

  -- The first station's turn is not in the way of the others.
  After-widen :
      (st : Station) (db after : Db) (sts : List Station)
      → All (λ x. x.id ≢ st.id) sts
      → All (After (turn_of st db).db after) sts
      → All (After db after) sts
  After-widen st db after [] _ _ = tt
  After-widen st db after (x ∷ sts) (away, later) (h, hs) = (
    elim h [
      | inl agrees ↦ inl agrees
      | inr (failed, busy, kept) ↦ inr (failed, busy, kept ∙ turn-row_of st db x.id away)
    ],
    After-widen st db after sts later hs,
  )

  tick-ids :
      (j : ℕ) (sts : List Station) (db : Db)
      → All (λ x. x.id ≢ j) sts
      → All (λ x. x.id ≢ j) (tick recipes commits now sts db).stations
  unfolding tick
  tick-ids j [] db h = tt
  tick-ids j (st ∷ sts) db (away, later) =
      ((λ e. away (sym (turn-id st db) ∙ e)), tick-ids j sts (turn_of st db).db later)

  -- For stations of distinct ids whose rows, where they have one, say of the cycle what memory
  -- says, to the microsecond, the same holds after a tick, whichever cycles start, end, wait or
  -- fail, but for a station whose commit failed: that one may be in progress in memory while its
  -- row is what it was.
  pub tick-Agrees :
      (sts : List Station) (db : Db)
      → DistinctStations sts
      → All (Agrees db) sts
      → All
          (After db (tick recipes commits now sts db).db)
          (tick recipes commits now sts db).stations
  unfolding tick
  tick-Agrees [] db _ _ = tt
  tick-Agrees (st ∷ sts) db (first, distinct) (h, hs) =
      let mid = (turn_of st db).db in
      let after = (tick recipes commits now sts mid).db in
      let same =
        tick-row_of (turn_of st db).station.id sts mid
          (subst (λ k. All (λ x. x.id ≢ k) sts) (sym (turn-id st db)) first) in
      (
        elim (turn-Agrees st db h) [
          | inl agrees ↦ inl (rw same agrees)
          | inr (failed, busy, kept) ↦ inr (failed, busy, same ∙ kept)
        ],
        After-widen st db after (tick recipes commits now sts mid).stations
            (tick-ids st.id sts mid first)
            (tick-Agrees sts mid distinct (others-Agree st db sts first hs)),
      )
