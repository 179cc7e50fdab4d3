-- ===== src/Store/Sweep.antt =====
-- internal/store/sweep.go: SweepCredentials, the deletion of credentials that are past use. A batch is
-- one statement with a clock of its own; a batch whose round is cancelled or failed ends the sweep.
pub mod Kept
use catenary.Prelude.{
  ℕ, ◌+◌, ◌*◌, Bool, true, false, not, ◌&&◌, ◌||◌, Option, none, some, List, [], ◌∷◌, ltb, leb,
  is_some, length, has, keep, exists, sort_by, first, if◌then◌else◌, map,
}
use catenary.Store.Tables.{Uuid, Time, RefreshRow, AccessRow, Db}
use catenary.Store.Rotation.{refresh_token_lifetime}

-- RefreshTokenLifetime and a week.
abbrev pub spent_credential_retention : Time
spent_credential_retention = refresh_token_lifetime + 7 * 24 * 3600 * 1000000000

abbrev pub sweep_batch_size : ℕ
sweep_batch_size = 1000

-- The order of a batch, and its LIMIT.
unfoldable pub victims {ℓ} :
    {A : Type ℓ} → (id : A → Uuid) → (issued_at : A → Time) → (A → Bool) → List A → List Uuid
victims id issued_at is_due rows =
    map id (first sweep_batch_size (sort_by issued_at (sort_by id (keep is_due rows))))

-- DELETE WHERE id IN, with the number of rows that it deleted.
unfoldable pub delete_batch {ℓ} :
    {A : Type ℓ} → (id : A → Uuid) → (issued_at : A → Time) → (A → Bool) → List A → List A × ℕ
unfolding victims
delete_batch id issued_at is_due rows =
    let gone = keep (λ r. has (id r) (victims id issued_at is_due rows)) rows in
    (keep (λ r. not (has (id r) (victims id issued_at is_due rows))) rows, length gone)

-- What one turn of a loop meets: its clock, a context that is done, a statement that fails.
pub record SweepRound : Type 0 where
  pub db_now : Time
  pub cancelled : Bool
  pub fails : Bool

-- A loop over batches: the rows, how many are deleted, and whether it ended by a short batch. A
-- foreign key may forbid a batch, given the rows that it leaves and the ids that it deletes.
unfoldable pub sweep_loop {ℓ} :
    {A : Type ℓ}
    → (id : A → Uuid) → (issued_at : A → Time) → (Time → A → Bool)
    → (List A → List Uuid → Bool)
    → List SweepRound
    → List A
    → List A × ℕ × Bool
unfolding delete_batch victims
sweep_loop id issued_at is_due is_barred [] rows = (rows, 0, false)
sweep_loop id issued_at is_due is_barred (t ∷ ts) rows =
    let done = delete_batch id issued_at (is_due t.db_now) rows in
    let rest = sweep_loop id issued_at is_due is_barred ts done.0 in
    if t.cancelled || t.fails || is_barred done.0 (victims id issued_at (is_due t.db_now) rows)
    then (rows, 0, false)
    else if ltb done.1 sweep_batch_size
    then (done.0, done.1, true)
    else (rest.0, done.1 + rest.1, rest.2)

-- Issued before the retention window.
abbrev pub is_old : Time → Time → Bool
is_old now issued_at = ltb (issued_at + spent_credential_retention) now

unfoldable pub is_spent_access : Time → AccessRow → Bool
is_spent_access now a =
    is_old now a.issued_at
    && (is_some a.revoked_at || elim a.expires_at [ none ↦ false | some e ↦ leb e now ])

unfoldable pub is_spent_refresh : Time → RefreshRow → Bool
is_spent_refresh now r = is_old now r.issued_at && (is_some r.revoked_at || leb r.expires_at now)

-- replaced_by is ON DELETE RESTRICT: no row that stays may name one that goes.
unfoldable pub restricts : List RefreshRow → List Uuid → Bool
restricts stay gone =
    exists (λ (r : RefreshRow). elim r.replaced_by [ none ↦ false | some n ↦ has n gone ]) stay

abbrev pub no_restriction : List AccessRow → List Uuid → Bool
no_restriction stay gone = false

-- SweepCredentials, with the rounds of its two loops: how many of each it deleted, and whether
-- it came to its end.
unfoldable pub sweep_credentials : List SweepRound → List SweepRound → Db → (ℕ × ℕ × Bool) × Db
unfolding sweep_loop is_spent_access is_spent_refresh restricts
sweep_credentials first_loop second_loop db =
    let access =
      sweep_loop (λ (a : AccessRow). a.id) (λ (a : AccessRow). a.issued_at) is_spent_access
        no_restriction first_loop db.access_tokens in
    let refresh =
      sweep_loop (λ (r : RefreshRow). r.id) (λ (r : RefreshRow). r.issued_at) is_spent_refresh
        restricts second_loop db.refresh_tokens in
    if access.2
    then (
      (access.1, refresh.1, refresh.2),
      record db { access_tokens = access.0; refresh_tokens = refresh.0 },
    )
    else ((access.1, 0, false), record db { access_tokens = access.0 })
