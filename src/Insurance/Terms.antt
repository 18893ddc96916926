-- ===== src/Insurance/Terms.antt =====
-- internal/economy/insurance/service.go: what is sold for a premium, and which cover lapses first.
use spaceempire_back.Prelude.{
  ℕ, ◌+◌, ◌*◌, ◌≤◌, ◌<◌, ◌≡◌, ◌≢◌, refl, ap, ◌⊎◌, inl, inr, true, false, none, List, [], ◌∷◌, arith,
  leb, ltb, ◌==◌, Bool-cases, All, Rowwise, ==→≡, leb→le, leb→lt,
}
use spaceempire_back.Prelude.Int.{ℤ, pos, negsuc, pos_part, max_i64, wrap_i64_small}
use spaceempire_back.Store.Tables.{Policy, PolicyStatus, policy_active, policy_expired}
use spaceempire_back.InsuranceRepo.{policy_row, covers, is_live, expire_rows, is_covered}
use spaceempire_back.Insurance.{Config, policy_for, capped_days}

-- Active cover of the ship whose end has come is expired, and any other policy is as it was.
abbrev pub Lapse : ℕ → ℕ → Policy → Policy → Type 0
Lapse ship now q q' =
    ((q.status ≡ policy_active)
      × (q.ship_id ≡ ship)
      × (q.expires_at ≤ now)
      × (q' ≡ record q { status = policy_expired }))
    ⊎ (((q.status ≢ policy_active) ⊎ ((q.ship_id ≢ ship) ⊎ (now < q.expires_at))) × (q' ≡ q))

abbrev pub Covers : ℕ → Policy → Type 0
Covers ship q = (q.status ≡ policy_active) × (q.ship_id ≡ ship)

is_live-eq : (t : PolicyStatus) → is_live t ≡ true → t ≡ policy_active
is_live-eq policy_active h = refl
is_live-eq _ h = cc

covers-cases :
    (ship : ℕ) (q : Policy)
    → ((covers ship q ≡ true) × Covers ship q)
      ⊎ ((covers ship q ≡ false) × ((q.status ≢ policy_active) ⊎ (q.ship_id ≢ ship)))
covers-cases ship q = elim (Bool-cases (is_live q.status)) [
  | inl live ↦ elim (Bool-cases (q.ship_id == ship)) [
    | inl its ↦ inl (rw (live, its) refl, (is_live-eq q.status live, ==→≡ q.ship_id ship its))
    | inr other ↦ inr (rw (live, other) refl, inr (λ e. ground arith))
  ]
  | inr dead ↦ inr (rw dead refl, inl (λ e. let same = ap is_live e in cc))
]

pub expire_rows-Lapse :
    (ship now : ℕ) (ps : List Policy) → Rowwise (Lapse ship now) ps (expire_rows ship now ps)
unfolding expire_rows
expire_rows-Lapse ship now [] = tt
expire_rows-Lapse ship now (q ∷ qs) = elim (covers-cases ship q) [
  | inr (no_cover, why) ↦
      rw (no_cover, expire_rows)
        (
          inr (elim why [ inl a ↦ inl a | inr b ↦ inr (inl b) ], refl),
          expire_rows-Lapse ship now qs,
        )
  | inl (cover, (live, its)) ↦ elim (Bool-cases (leb q.expires_at now)) [
    | inl ended ↦
        rw (cover, ended, expire_rows)
          (inl (live, its, leb→le q.expires_at now ended, refl), expire_rows-Lapse ship now qs)
    | inr runs ↦
        rw (cover, runs, expire_rows)
          (inr (inr (inr (leb→lt q.expires_at now runs)), refl), expire_rows-Lapse ship now qs)
  ]
]

pub is_covered-All :
    (ship : ℕ) (ps : List Policy)
    → is_covered ship ps ≡ false
    → All (λ q. q.status ≡ policy_active → q.ship_id ≢ ship) ps
unfolding is_covered
is_covered-All ship [] h = tt
is_covered-All ship (q ∷ qs) h = elim (covers-cases ship q) [
  | inl (cover, _) ↦ ground arith
  | inr (no_cover, why) ↦ (
    (λ live e. elim why [ inl dead ↦ dead live | inr other ↦ other e ]),
    is_covered-All ship qs (rw no_cover at h),
  )
]

capped_days-min :
    (cfg : Config) (days : ℤ)
    → 0 < pos_part days
    → ((capped_days cfg days ≤ pos_part days) × (capped_days cfg days ≤ cfg.max_duration_days))
      × ((capped_days cfg days ≡ pos_part days) ⊎ (capped_days cfg days ≡ cfg.max_duration_days))
unfolding capped_days
capped_days-min cfg (pos n) h = elim (Bool-cases (ltb cfg.max_duration_days n)) [
  | inl over ↦ (ground arith, ground arith)
  | inr under ↦ (ground arith, ground arith)
]
capped_days-min cfg (negsuc n) h = absurd (omega (arith, h))

module _ (cfg : Config) (player ship : ℕ) (premium days : ℤ) (now id : ℕ) where
  -- The policy that is sold; a day has 86400 * 10 ^ 9 nanoseconds.
  pub record Terms (sold : Policy) : Type 0 where
    pub days_covered : ℕ
    pub at_most : (days_covered ≤ pos_part days) × (days_covered ≤ cfg.max_duration_days)
    pub least : (days_covered ≡ pos_part days) ⊎ (days_covered ≡ cfg.max_duration_days)
    pub coverage :
        pos_part premium * cfg.coverage_multiplier ≤ max_i64
        → sold.coverage ≡ pos_part premium * cfg.coverage_multiplier
    pub ends :
        days_covered * 86400000000000 ≤ max_i64
        → sold.expires_at ≡ now + days_covered * 86400000000000
    pub row : sold ≡ record {
      id = id;
      ship_id = ship;
      player_id = player;
      premium_paid = pos_part premium;
      coverage = sold.coverage;
      status = policy_active;
      expires_at = sold.expires_at;
      claimed_at = none;
    }

  pub policy_row-Terms :
      0 < pos_part days → Terms (policy_row id (policy_for cfg player ship premium days now))
  unfolding policy_for
  policy_row-Terms positive = record {
    days_covered = capped_days cfg days;
    at_most = (capped_days-min cfg days positive).0;
    least = (capped_days-min cfg days positive).1;
    coverage = λ h. ap pos_part (wrap_i64_small (pos_part premium * cfg.coverage_multiplier) h);
    ends = λ h. rw (wrap_i64_small (capped_days cfg days * 86400000000000) h) (omega arith);
    row = refl;
  }
