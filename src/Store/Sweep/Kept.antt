-- ===== src/Store/Sweep/Kept.antt =====
-- internal/store/sweep.go: what a sweep leaves.
use catenary.Prelude.{
  ◌+◌, ◌*◌, ◌≤◌, ◌<◌, ◌⊎◌, none, ◌≡◌, ◌∙◌, refl, ap, ==→eq, Bool, true, false, not, ◌&&◌, List, [],
  ◌∷◌, ◌==◌, has, All, All-map, keep, exists, sort_by, sort_by-has, first-has, map, arith,
  Bool-cases, inl, inr,
}
use catenary.Store.Tables.{Uuid, Time, RefreshRow, Db}
use catenary.Store.Sweep.{
  sweep_batch_size, victims, delete_batch, sweep_loop, SweepRound, is_spent_refresh, restricts,
  sweep_credentials,
}

module _ {ℓ} {A : Type ℓ} (id : A → Uuid) (issued_at : A → Time) (i : Uuid) where
  keep-exists :
      (p : A → Bool) (xs : List A)
      → has i (map id (keep p xs)) ≡ true
      → exists (λ x. id x == i && p x) xs ≡ true
  keep-exists p [] h = h
  keep-exists p (x ∷ xs) h = ground (arith, h, keep-exists p xs)

  -- What a batch deletes is due.
  victims-is_due :
      (p : A → Bool) (xs : List A)
      → has i (victims id issued_at p xs) ≡ true
      → exists (λ x. id x == i && p x) xs ≡ true
  unfolding victims
  victims-is_due p xs h =
      let by_id = sort_by id (keep p xs) in
      let found = first-has id issued_at i sweep_batch_size (sort_by issued_at by_id) h in
      keep-exists p xs
        (ground (arith, found, sort_by-has id issued_at i by_id, sort_by-has id id i (keep p xs)))

  others-exists :
      (q : A → Bool) (gone : List Uuid) (xs : List A)
      → has i gone ≡ false
      → exists (λ x. id x == i && q x) (keep (λ x. not (has (id x) gone)) xs)
        ≡ exists (λ x. id x == i && q x) xs
  others-exists q gone [] h = refl
  others-exists q gone (x ∷ xs) h = elim (Bool-cases (id x == i)) [
    | inl e ↦
        ground (arith, e, h, others-exists q gone xs h, ap (λ j. has j gone) (==→eq (id x) i e))
    | inr e ↦ ground (arith, e, others-exists q gone xs h)
  ]

  module _ (is_due : Time → A → Bool) (is_barred : List A → List Uuid → Bool) where
    -- No row of this id is due at the clock of any round.
    abbrev pub IsUseful : List SweepRound → List A → Type 0
    IsUseful ts rows = All (λ t. exists (λ x. id x == i && is_due t.db_now x) rows ≡ false) ts

    spared :
        (now : Time) (rows : List A)
        → exists (λ x. id x == i && is_due now x) rows ≡ false
        → has i (victims id issued_at (is_due now) rows) ≡ false
    spared now rows u = elim (Bool-cases (has i (victims id issued_at (is_due now) rows))) [
      | inl h ↦ absurd (ground (arith, u, victims-is_due (is_due now) rows h))
      | inr h ↦ h
    ]

    -- The loop leaves the rows of an id that has none that is due, whatever trouble it meets.
    pub sweep_loop-kept :
        (ts : List SweepRound) (rows : List A) (q : A → Bool)
        → IsUseful ts rows
        → exists (λ x. id x == i && q x) (sweep_loop id issued_at is_due is_barred ts rows).0
          ≡ exists (λ x. id x == i && q x) rows
    unfolding sweep_loop delete_batch victims
    sweep_loop-kept [] rows q u = refl
    sweep_loop-kept (t ∷ ts) rows q u =
        let gone = victims id issued_at (is_due t.db_now) rows in
        let left = keep (λ x. not (has (id x) gone)) rows in
        let same = λ (p : A → Bool). others-exists p gone rows (spared t.db_now rows u.0) in
        let useful =
          All-map (λ (r : SweepRound). exists (λ x. id x == i && is_due r.db_now x) rows ≡ false)
            (λ (r : SweepRound). exists (λ x. id x == i && is_due r.db_now x) left ≡ false) ts
            (λ r h. same (is_due r.db_now) ∙ h) u.1 in
        ground (arith, sweep_loop-kept ts left q useful, same q)

-- What no batch of the rounds may take: a row that is live at its clock, or one that is within the
-- retention, 60 days and 7 more from its issue.
abbrev pub IsWanted : List SweepRound → RefreshRow → Type 0
IsWanted us r =
    All
      (λ u.
        ((r.revoked_at ≡ none) × (u.db_now < r.expires_at))
        ⊎ (u.db_now ≤ r.issued_at + 67 * 24 * 3600 * 1000000000))
      us

wanted-not_spent :
    (now : Time) (r : RefreshRow)
    → ((r.revoked_at ≡ none) × (now < r.expires_at))
      ⊎ (now ≤ r.issued_at + 67 * 24 * 3600 * 1000000000)
    → is_spent_refresh now r ≡ false
unfolding is_spent_refresh
wanted-not_spent now r (inl live) = ground (arith, live.0, live.1)
wanted-not_spent now r (inr recent) = ground (arith, recent)

-- A round finds no row of the id that is past use, if all of that id are wanted.
wanted-round :
    (u : SweepRound) (i : Uuid) (rs : List RefreshRow)
    → All (λ (r : RefreshRow). (r.id == i) ≡ true → is_spent_refresh u.db_now r ≡ false) rs
    → exists (λ (r : RefreshRow). r.id == i && is_spent_refresh u.db_now r) rs ≡ false
wanted-round u i [] w = refl
wanted-round u i (r ∷ rs) w = ground (arith, w.0, wanted-round u i rs w.1)

wanted-IsUseful :
    (us : List SweepRound) (i : Uuid) (rs : List RefreshRow)
    → All (λ (r : RefreshRow). (r.id == i) ≡ true → IsWanted us r) rs
    → IsUseful
        (λ (r : RefreshRow). r.id)
        (λ (r : RefreshRow). r.issued_at)
        i
        is_spent_refresh
        restricts
        us
        rs
wanted-IsUseful [] i rs w = tt
wanted-IsUseful (u ∷ us) i rs w = (
  wanted-round u i rs (
      All-map (λ (r : RefreshRow). (r.id == i) ≡ true → IsWanted (u ∷ us) r)
        (λ (r : RefreshRow). (r.id == i) ≡ true → is_spent_refresh u.db_now r ≡ false) rs
        (λ r h e. wanted-not_spent u.db_now r (h e).0) w),
  wanted-IsUseful us i rs (
      All-map (λ (r : RefreshRow). (r.id == i) ≡ true → IsWanted (u ∷ us) r)
        (λ (r : RefreshRow). (r.id == i) ≡ true → IsWanted us r) rs (λ r h e. (h e).1) w),
)

-- A sweep takes no refresh token that is live, and none that is within its retention: the rows of
-- an id stay as they are, if at the clock of each batch each of them is unrevoked and not
-- expired, or was issued no more than 67 days ago. The rounds of the two loops are any, those
-- cancelled or failed among them.
pub sweep_credentials-kept :
    (ts us : List SweepRound) (db : Db) (i : Uuid) (q : RefreshRow → Bool)
    → All (λ (r : RefreshRow). (r.id == i) ≡ true → IsWanted us r) db.refresh_tokens
    → exists (λ (r : RefreshRow). r.id == i && q r) (sweep_credentials ts us db).1.refresh_tokens
      ≡ exists (λ (r : RefreshRow). r.id == i && q r) db.refresh_tokens
unfolding sweep_credentials
sweep_credentials-kept ts us db i q w = ground (
  arith,
  sweep_loop-kept (λ (r : RefreshRow). r.id) (λ (r : RefreshRow). r.issued_at) i is_spent_refresh
      restricts us db.refresh_tokens q (wanted-IsUseful us i db.refresh_tokens w),
)
