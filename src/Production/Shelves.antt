-- ===== src/Production/Shelves.antt =====
-- internal/economy/production/service.go: loadMarket, hasInputs and hasOutputRoom against the table.
use spaceempire_back.Prelude.{
  ℕ, ◌+◌, ◌≤◌, ◌<◌, ◌≡◌, ◌≢◌, refl, subst, ◌⊎◌, inl, inr, true, false, none, some, List, [], ◌∷◌,
  arith, ltb, Bool-cases, Option-cases, All, Any, lookup,
}
use spaceempire_back.Prelude.Int.{pos, ltb_ℤ, max_i64, wrap_i64, wrap_i64_small}
use spaceempire_back.Domain.{EntityRef}
use spaceempire_back.Store.Tables.{MarketEntry, Db}
use spaceempire_back.Store.Tx.{ok}
use spaceempire_back.MarketRepo.{order_by_goods, list_market}
use spaceempire_back.Production.{
  RecipeLine, Market, index_market, load_market, stock_in, has_inputs, has_output_room,
}
use spaceempire_back.Production.Index.{
  of_ref, Any-order, All-order, Any-of_ref, All-of_ref, lookup-index, lookup-index_none, Any-map,
}

-- A row of the station's shelf for a good.
abbrev pub IsShelf : EntityRef → ℕ → MarketEntry → Type 0
IsShelf ref g e = (e.owner ≡ ref) × (e.goods_type ≡ g)

-- What the shelf holds of a good: the stock of a row, or nothing where no row is.
abbrev pub HasStock : EntityRef → List MarketEntry → ℕ → ℕ → Type 0
HasStock ref es g n =
    Any (λ e. IsShelf ref g e × (e.stock ≡ n)) es
    ⊎ (All (λ e. e.owner ≡ ref → e.goods_type ≢ g) es × (n ≡ 0))

-- There is a row with room for the line, as far as the sum is an int64.
abbrev pub HasRoom : EntityRef → List MarketEntry → RecipeLine → Type 0
HasRoom ref es l =
    Any
      (λ e.
        IsShelf ref l.goods_type e
        × (e.stock + l.quantity ≤ max_i64 → e.stock + l.quantity ≤ e.max_stock))
      es

-- There is no row for the line, or one without room for it.
abbrev pub LacksRoom : EntityRef → List MarketEntry → RecipeLine → Type 0
LacksRoom ref es l =
    All (λ e. e.owner ≡ ref → e.goods_type ≢ l.goods_type) es
    ⊎ Any
        (λ e.
          IsShelf ref l.goods_type e
          × (e.stock + l.quantity ≤ max_i64 → e.max_stock < e.stock + l.quantity))
        es

module _ (ref : EntityRef) (db : Db) {m : Market} (loaded : load_market ref db ≡ ok m db) where
  abbrev entries : List MarketEntry
  entries = order_by_goods (of_ref ref db.station_goods)

  load_market-index : m ≡ index_market entries []
  unfolding load_market list_market
  load_market-index = ground (arith, loaded)

  market-IsShelf :
      (g : ℕ) (e : MarketEntry)
      → lookup g m ≡ some e
      → Any (λ x. IsShelf ref g x × (x ≡ e)) db.station_goods
  market-IsShelf g e h =
      elim (lookup-index g entries [] (subst (λ x. lookup g x ≡ some e) load_market-index h)) [
        | inr never ↦ cc
        | inl found ↦
            Any-map (λ x. (x.owner ≡ ref) × ((x.goods_type ≡ g) × (x ≡ e))) _
              (λ x (a, (b, c)). ((a, b), c)) db.station_goods
              (Any-of_ref (λ x. (x.goods_type ≡ g) × (x ≡ e)) ref db.station_goods
                (Any-order (λ x. (x.goods_type ≡ g) × (x ≡ e)) (of_ref ref db.station_goods) found))
      ]

  market-none :
      (g : ℕ) → lookup g m ≡ none → All (λ e. e.owner ≡ ref → e.goods_type ≢ g) db.station_goods
  market-none g absent =
      let (away, _) =
        lookup-index_none g entries [] (subst (λ x. lookup g x ≡ none) load_market-index absent) in
      All-of_ref (λ x. x.goods_type ≢ g) ref db.station_goods
        (All-order (λ x. x.goods_type ≢ g) (of_ref ref db.station_goods) away)

  pub has_output_room-LacksRoom :
      (ls : List RecipeLine)
      → has_output_room m ls ≡ false
      → Any (LacksRoom ref db.station_goods) ls
  unfolding has_output_room
  has_output_room-LacksRoom [] h = ground arith
  has_output_room-LacksRoom (l ∷ ls) h = elim (Option-cases (lookup l.goods_type m)) [
    | inl absent ↦ inl (inl (market-none l.goods_type absent))
    | inr (e, there) ↦
        elim (Bool-cases (ltb_ℤ (pos e.max_stock) (wrap_i64 (e.stock + l.quantity)))) [
          | inl over ↦ inl (
              inr (
                Any-map (λ x. IsShelf ref l.goods_type x × (x ≡ e)) _
                  (λ x (a, c). (a, rw c (λ small. beyond e l small over))) db.station_goods
                  (market-IsShelf l.goods_type e there)))
          | inr fits ↦ inr (has_output_room-LacksRoom ls (rw (there, fits, has_output_room) at h))
        ]
  ]
    where
      beyond :
          (e : MarketEntry) (l : RecipeLine)
          → e.stock + l.quantity ≤ max_i64
          → ltb_ℤ (pos e.max_stock) (wrap_i64 (e.stock + l.quantity)) ≡ true
          → e.max_stock < e.stock + l.quantity
      beyond e l small over =
          let f = rw (wrap_i64_small (e.stock + l.quantity) small) at over in ground arith

  pub market-HasStock : (g : ℕ) → HasStock ref db.station_goods g (stock_in m g)
  unfolding stock_in
  market-HasStock g = elim (Option-cases (lookup g m)) [
    | inl absent ↦ inr (market-none g absent, rw (absent, stock_in) refl)
    | inr (e, there) ↦ inl (
        Any-map (λ x. IsShelf ref g x × (x ≡ e)) _ (λ x (a, c). (a, rw (c, there, stock_in) refl))
          db.station_goods (market-IsShelf g e there))
  ]

  pub has_output_room-HasRoom :
      (ls : List RecipeLine) → has_output_room m ls ≡ true → All (HasRoom ref db.station_goods) ls
  unfolding has_output_room
  has_output_room-HasRoom [] h = tt
  has_output_room-HasRoom (l ∷ ls) h = elim (Option-cases (lookup l.goods_type m)) [
    | inl absent ↦ ground (arith, rw (absent, has_output_room) at h)
    | inr (e, there) ↦
        elim (Bool-cases (ltb_ℤ (pos e.max_stock) (wrap_i64 (e.stock + l.quantity)))) [
          | inl over ↦ ground (arith, rw (there, over, has_output_room) at h)
          | inr fits ↦ (
            Any-map (λ x. IsShelf ref l.goods_type x × (x ≡ e)) _
                (λ x (a, c). (a, rw c (λ small. within e l small fits))) db.station_goods
                (market-IsShelf l.goods_type e there),
            has_output_room-HasRoom ls (rw (there, fits, has_output_room) at h),
          )
        ]
  ]
    where
      within :
          (e : MarketEntry) (l : RecipeLine)
          → e.stock + l.quantity ≤ max_i64
          → ltb_ℤ (pos e.max_stock) (wrap_i64 (e.stock + l.quantity)) ≡ false
          → e.stock + l.quantity ≤ e.max_stock
      within e l small fits =
          let f = rw (wrap_i64_small (e.stock + l.quantity) small) at fits in ground arith

pub has_inputs-All :
    (m : Market) (ls : List RecipeLine)
    → has_inputs m ls ≡ true
    → All (λ l. l.quantity ≤ stock_in m l.goods_type) ls
unfolding has_inputs
has_inputs-All m [] h = tt
has_inputs-All m (l ∷ ls) h = elim (Bool-cases (ltb (stock_in m l.goods_type) l.quantity)) [
  | inl short ↦ ground (arith, rw short at h)
  | inr enough ↦ (ground arith, has_inputs-All m ls (rw enough at h))
]

pub has_inputs-Any :
    (m : Market) (ls : List RecipeLine)
    → has_inputs m ls ≡ false
    → Any (λ l. stock_in m l.goods_type < l.quantity) ls
unfolding has_inputs
has_inputs-Any m [] h = ground arith
has_inputs-Any m (l ∷ ls) h = elim (Bool-cases (ltb (stock_in m l.goods_type) l.quantity)) [
  | inl short ↦ inl (ground arith)
  | inr enough ↦ inr (has_inputs-Any m ls (rw enough at h))
]
