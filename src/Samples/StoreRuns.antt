-- ===== src/Samples/StoreRuns.antt =====
-- A rotation, its retry, and its replay, run. Tokens are their own hashes.
use catenary.Prelude.{
  ℕ, All, inl, ◌+◌, ◌*◌, ◌≤◌, ◌≡◌, refl, true, false, ◌&&◌, ◌==◌, none, some, [], ◌∷◌, arith,
  exists, first, sort_by, insert_by,
}
use catenary.Store.Sweep.{
  SweepRound, sweep_credentials, sweep_loop, delete_batch, victims, is_spent_refresh,
  is_spent_access, restricts,
}
use catenary.Store.Sweep.Kept.{IsWanted, sweep_credentials-kept}
use catenary.Store.Tables.{
  RefreshRow, DeviceRow, Db, by_hash, by_id, device_of, mark_replaced, revoke_family, revoke_device,
  user_of,
}
use catenary.Store.Rotation.{
  Request, no_trouble, rotate_refresh_proposing, retry_present_proposal, rotated, unauthorized,
  issued, new_row, collides, is_spendable, serve, is_rotated,
}
use catenary.Store.Rotation.SingleUse.{rotations, rotations_bound}
use catenary.Store.Rotation.Retry.{lost_answer-retry, lost_answer-present}
use catenary.Store.Rotation.Replay.{IsDead, IsCut, replay-revokes, replay-final}

abbrev plain : ℕ → ℕ
plain t = t

abbrev row_1 : RefreshRow
row_1 = record {
  id = 1;
  device_id = 10;
  token_hash = 100;
  family_id = 1;
  replaced_by = none;
  issued_at = 0;
  expires_at = 1000 * 1000000000;
  revoked_at = none;
}

abbrev device_10 : DeviceRow
device_10 = record { id = 10; user_id = 20; revoked_at = none }

abbrev pub db_0 : Db
db_0 = record {
  refresh_tokens = row_1 ∷ [];
  access_tokens = [];
  devices = device_10 ∷ [];
  users = record { id = 20; is_bot = false; deactivated_at = none } ∷ [];
  notified = [];
}

-- The client's request, one second in.
abbrev pub request_1 : Request
request_1 = record {
  presented = 100;
  proposed = 101;
  minted_refresh = 900;
  minted_access = 901;
  new_id = 2;
  access_id = 50;
  now = 1000000000;
  db_now = 1000000000;
  trouble = no_trouble;
}

abbrev request_2 : Request
request_2 = record request_1 { new_id = 3; now = 5000000000; db_now = 5000000000 }

abbrev request_3 : Request
request_3 = record request_1 {
  presented = 101;
  proposed = 102;
  new_id = 4;
  now = 6000000000;
  db_now = 6000000000;
}

-- The tables when the answer to request_1 was lost, and the replay of its token a minute later.
abbrev row_2 : RefreshRow
row_2 = record {
  id = 2;
  device_id = 10;
  token_hash = 101;
  family_id = 1;
  replaced_by = none;
  issued_at = 1000000000;
  expires_at = 2000 * 1000000000;
  revoked_at = none;
}

abbrev spent_1 : RefreshRow
spent_1 = record row_1 { replaced_by = some 2 }

abbrev db_1 : Db
db_1 = record db_0 { refresh_tokens = spent_1 ∷ row_2 ∷ [] }

abbrev replay : Request
replay = record request_1 {
  proposed = 103;
  new_id = 5;
  now = 60 * 1000000000;
  db_now = 60 * 1000000000;
}

rotations_bound_example : rotations plain 100 (request_1 ∷ request_2 ∷ replay ∷ []) db_0 ≤ 1
rotations_bound_example = rotations_bound plain 100 (request_1 ∷ request_2 ∷ replay ∷ []) db_0

lost_answer-retry_example :
    let db' = (rotate_refresh_proposing plain request_1 db_0).1 in
    rotate_refresh_proposing plain request_2 db' ≡ (retry_present_proposal, db')
unfolding by_hash by_id device_of is_spendable user_of
lost_answer-retry_example =
    lost_answer-retry plain request_1 request_2 row_1 device_10 db_0 refl refl
      (λ h. omega (arith, h)) (λ h. omega (arith, h)) (λ h. omega (arith, h)) refl refl refl refl
      refl (λ h. omega (arith, h)) refl refl (omega arith)

lost_answer-present_example :
    (rotate_refresh_proposing plain request_3 (rotate_refresh_proposing plain request_1 db_0).1).0
    ≡ rotated (issued plain request_3 (new_row plain request_1 row_1) 20)
unfolding by_hash by_id device_of is_spendable rotate_refresh_proposing user_of mark_replaced
lost_answer-present_example =
    lost_answer-present plain request_1 request_3 row_1 device_10 db_0 refl refl
      (λ h. omega (arith, h)) (λ h. omega (arith, h)) (λ h. omega (arith, h)) refl refl refl refl
      (λ h. omega (arith, h)) refl (λ h. omega (arith, h)) (omega arith) refl

replay-revokes_example :
    let (a, db') = rotate_refresh_proposing plain replay db_1 in
    (a ≡ unauthorized) × IsDead 1 db'.refresh_tokens × IsCut 10 db'
unfolding by_hash by_id device_of collides
replay-revokes_example =
    replay-revokes plain replay spent_1 row_2 device_10 db_1 refl (λ h. omega (arith, h))
      (λ h. omega (arith, h)) refl refl refl refl refl (omega arith) refl

-- A later request with the successor, which was never spent.
replay-final_example :
    is_rotated
      (rotate_refresh_proposing plain
        (record request_3 { presented = 101 })
        (serve plain (replay ∷ request_2 ∷ []) db_1)).0
    ≡ false
unfolding by_hash by_id device_of collides rotate_refresh_proposing is_spendable revoke_family
    revoke_device
replay-final_example =
    replay-final plain replay spent_1 row_2 device_10 db_1 (request_2 ∷ [])
      (record request_3 { presented = 101 }) (record row_2 { revoked_at = some (60 * 1000000000) })
      refl (λ h. omega (arith, h)) (λ h. omega (arith, h)) refl refl refl refl refl (omega arith)
      refl refl refl

-- Seventy days in, with a token of the day before beside the first one.
abbrev late : ℕ
late = 70 * 24 * 3600 * 1000000000

abbrev row_7 : RefreshRow
row_7 = record row_2 { id = 7; issued_at = 69 * 24 * 3600 * 1000000000; expires_at = late + late }

abbrev db_late : Db
db_late = record db_0 { refresh_tokens = row_1 ∷ row_7 ∷ [] }

abbrev round_late : SweepRound
round_late = record { db_now = late; cancelled = false; fails = false }

first_swept :
    sweep_credentials (round_late ∷ []) (round_late ∷ []) db_late
    ≡ ((0, 1, true), record db_late { refresh_tokens = row_7 ∷ [] })
unfolding sweep_credentials sweep_loop delete_batch victims is_spent_refresh is_spent_access
    restricts first sort_by insert_by
first_swept = refl

-- The first row is another; the second is both live and recent.
rows-IsWanted :
    All
      (λ (r : RefreshRow). (r.id == 7) ≡ true → IsWanted (round_late ∷ []) r)
      db_late.refresh_tokens
rows-IsWanted = (λ h. cc, (λ h. (inl (refl, omega arith), tt), tt))

sweep_credentials-kept_example :
    exists
      (λ (r : RefreshRow). r.id == 7 && r.token_hash == 101)
      (sweep_credentials (round_late ∷ []) (round_late ∷ []) db_late).1.refresh_tokens
    ≡ true
sweep_credentials-kept_example =
    sweep_credentials-kept (round_late ∷ []) (round_late ∷ []) db_late 7 (λ r. r.token_hash == 101)
      rows-IsWanted
