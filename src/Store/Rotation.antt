-- ===== src/Store/Rotation.antt =====
-- internal/store/refresh.go: RotateRefreshProposing and the two ways it says no. A statement that fails,
-- or a deadline that passes, is a flag of `Trouble`; each transaction is one step, as PostgreSQL's row
-- locks make it. The hash (SHA-256) is a parameter.
pub mod Effect
pub mod SingleUse
pub mod Replay
pub mod Retry
use catenary.Prelude.{
  ℕ, ◌+◌, ◌*◌, Bool, true, false, ◌&&◌, ◌||◌, not, Option, none, some, List, [], ◌∷◌, ◌++◌, ◌==◌,
  ltb, leb, is_some, exists, if◌then◌else◌,
}
use catenary.Store.Tables.{
  Uuid, Token, Hash, Time, empty, RefreshRow, AccessRow, DeviceRow, UserRow, Db, by_hash, by_id,
  device_of, user_of, mark_replaced, revoke_family, revoke_access, revoke_device, holds, severs,
}

abbrev pub reuse_grace_window : ℕ
reuse_grace_window = 10 * 1000000000

abbrev pub refresh_token_lifetime : ℕ
refresh_token_lifetime = 60 * 24 * 3600 * 1000000000

abbrev pub access_token_lifetime : ℕ
access_token_lifetime = 15 * 60 * 1000000000

pub record IssuedToken : Type 0 where
  pub plaintext : Token
  pub expires_at : Time

pub record Rotated : Type 0 where
  pub user_id : Uuid
  pub device_id : Uuid
  pub access : IssuedToken
  pub refresh : IssuedToken

pub data Answer : Type 0 where
  rotated : Rotated → Answer
  unauthorized retry_fresh_proposal retry_present_proposal failed : Answer

-- Which statements fail.
pub record Trouble : Type 0 where
  pub lookup_fails : Bool
  pub insert_fails : Bool
  pub mark_fails : Bool
  pub access_fails : Bool
  pub commit_fails : Bool
  pub route_fails : Bool
  pub cause_fails : Bool
  pub invalidate_fails : Bool

abbrev pub no_trouble : Trouble
no_trouble = record {
  lookup_fails = false;
  insert_fails = false;
  mark_fails = false;
  access_fails = false;
  commit_fails = false;
  route_fails = false;
  cause_fails = false;
  invalidate_fails = false;
}

-- A request, with what the server draws for it and its clock (`now`) and the database's (`db_now`).
pub record Request : Type 0 where
  pub presented : Token
  pub proposed : Token
  pub minted_refresh : Token
  pub minted_access : Token
  pub new_id : Uuid
  pub access_id : Uuid
  pub now : Time
  pub db_now : Time
  pub trouble : Trouble

-- invalidateFamily.
unfoldable pub invalidate_family : Request → RefreshRow → Db → Db
invalidate_family q r db = if q.trouble.invalidate_fails then db else record db {
  refresh_tokens = revoke_family r.family_id q.db_now db.refresh_tokens;
  access_tokens = revoke_access r.device_id q.db_now db.access_tokens;
  devices = revoke_device r.device_id q.db_now db.devices;
  notified = if severs r.device_id db.devices then db.notified ++ r.device_id ∷ [] else db.notified;
}

-- The successor was issued less than the grace window ago.
unfoldable pub in_grace : RefreshRow → Time → Bool
in_grace s db_now = ltb db_now (s.issued_at + reuse_grace_window)

-- spentTokenOutcome: with no row for the successor, the rotation could not be dated.
unfoldable pub spent_token_outcome : Request → RefreshRow → Option RefreshRow → Db → Db
unfolding in_grace invalidate_family
spent_token_outcome q r none db = invalidate_family q r db
spent_token_outcome q r (some s) db = if in_grace s q.db_now then db else invalidate_family q r db

unfoldable pub replaced_outcome : Request → RefreshRow → Option Uuid → Db → Db
unfolding spent_token_outcome
replaced_outcome q r none db = db
replaced_outcome q r (some next) db = spent_token_outcome q r (by_id next db.refresh_tokens) db

-- refusalOutcome: the row is read again.
unfoldable pub refusal_of : Request → Option RefreshRow → Db → Db
unfolding replaced_outcome
refusal_of q none db = db
refusal_of q (some r) db = replaced_outcome q r r.replaced_by db

unfoldable pub refusal_outcome : Request → Uuid → Db → Db
unfolding refusal_of
refusal_outcome q id db =
    if q.trouble.cause_fails then db else refusal_of q (by_id id db.refresh_tokens) db

-- The two live branches of routeCollision; none is the fall to reuse detection.
unfoldable pub collision_answer : Request → Option Uuid → Option RefreshRow → Option Answer
unfolding in_grace
collision_answer q none colliding = some retry_fresh_proposal
collision_answer q (some next) none = none
collision_answer q (some next) (some c) =
    if next == c.id && in_grace c q.db_now then some retry_present_proposal else none

unfoldable pub answer_or_refuse : Request → Uuid → Option Answer → Db → Answer × Db
unfolding refusal_outcome
answer_or_refuse q id (some a) db = (a, db)
answer_or_refuse q id none db = (unauthorized, refusal_outcome q id db)

unfoldable pub route_of : Request → Option RefreshRow → Option RefreshRow → Option Answer
unfolding collision_answer
route_of q none colliding = none
route_of q (some r) colliding = collision_answer q r.replaced_by colliding

-- The four doors of the update that marks the row.
unfoldable pub is_revoked_device : Option DeviceRow → Bool
is_revoked_device none = true
is_revoked_device (some d) = is_some d.revoked_at

unfoldable pub is_deactivated : Option UserRow → Bool
is_deactivated none = true
is_deactivated (some u) = is_some u.deactivated_at

abbrev pub user_id_of : Option DeviceRow → Uuid
user_id_of none = 0
user_id_of (some d) = d.user_id

unfoldable pub is_spendable : Request → RefreshRow → Db → Bool
unfolding is_revoked_device is_deactivated
is_spendable q r db =
    let device = device_of r.device_id db.devices in
    not (is_some r.replaced_by)
    && not (is_some r.revoked_at)
    && ltb q.now r.expires_at
    && not (is_revoked_device device)
    && not (is_deactivated (user_of (user_id_of device) db.users))

module _ (hash : Token → Hash) where
  -- The token that insertRefreshProposed stores.
  abbrev pub successor_of : Request → Token
  successor_of q = if q.proposed == empty then q.minted_refresh else q.proposed

  unfoldable pub new_row : Request → RefreshRow → RefreshRow
  new_row q r = record {
    id = q.new_id;
    device_id = r.device_id;
    token_hash = hash (successor_of q);
    family_id = r.family_id;
    replaced_by = none;
    issued_at = q.db_now;
    expires_at = q.now + refresh_token_lifetime;
    revoked_at = none;
  }

  -- issueAccess.
  unfoldable pub issue_access : Request → Uuid → Uuid → AccessRow
  issue_access q user device = record {
    id = q.access_id;
    token_hash = hash q.minted_access;
    user_id = user;
    device_id = some device;
    issued_at = q.db_now;
    expires_at = some (q.now + access_token_lifetime);
    revoked_at = none;
  }

  unfoldable pub route_collision : Request → RefreshRow → Db → Answer × Db
  unfolding answer_or_refuse route_of
  route_collision q r db =
      answer_or_refuse q r.id
        (if q.trouble.route_fails
          then none
          else route_of q (by_id r.id db.refresh_tokens)
              (by_hash (hash q.proposed) db.refresh_tokens))
        db

  -- What the transaction leaves when it commits.
  unfoldable pub rotated_db : Request → RefreshRow → Uuid → Db → Db
  unfolding new_row issue_access
  rotated_db q r user db = record db {
    refresh_tokens = mark_replaced r.id q.new_id (db.refresh_tokens ++ new_row q r ∷ []);
    access_tokens = db.access_tokens ++ issue_access q user r.device_id ∷ [];
  }

  unfoldable pub issued : Request → RefreshRow → Uuid → Rotated
  issued q r user = record {
    user_id = user;
    device_id = r.device_id;
    access = record { plaintext = q.minted_access; expires_at = q.now + access_token_lifetime };
    refresh = record { plaintext = successor_of q; expires_at = q.now + refresh_token_lifetime };
  }

  -- The insert of the successor meets the unique hash.
  unfoldable pub collides : Request → Db → Bool
  collides q db = is_some (by_hash (hash (successor_of q)) db.refresh_tokens)

  -- From the insert on: every early return rolls the transaction back.
  unfoldable pub spend : Request → RefreshRow → Uuid → Db → Answer × Db
  unfolding rotated_db issued
  spend q r user db =
      if q.trouble.mark_fails
      then (failed, db)
      else if not (is_spendable q r db)
      then (unauthorized, refusal_outcome q r.id db)
      else if q.trouble.access_fails || q.trouble.commit_fails
      then (failed, db)
      else (rotated (issued q r user), rotated_db q r user db)

  unfoldable pub rotate_row : Request → RefreshRow → Uuid → Db → Answer × Db
  unfolding spend route_collision collides
  rotate_row q r user db =
      if q.trouble.insert_fails
      then (failed, db)
      else if collides q db
      then (if q.proposed == empty then (failed, db) else route_collision q r db)
      else spend q r user db

  unfoldable pub on_device : Request → RefreshRow → Option DeviceRow → Db → Answer × Db
  unfolding rotate_row
  on_device q r none db = (unauthorized, db)
  on_device q r (some d) db = rotate_row q r d.user_id db

  unfoldable pub found : Request → Option RefreshRow → Db → Answer × Db
  unfolding on_device
  found q none db = (unauthorized, db)
  found q (some r) db = on_device q r (device_of r.device_id db.devices) db

  -- RotateRefreshProposing.
  unfoldable pub rotate_refresh_proposing : Request → Db → Answer × Db
  unfolding found
  rotate_refresh_proposing q db =
      if q.presented == empty
      then (unauthorized, db)
      else if not (q.proposed == empty) && q.proposed == q.presented
      then (retry_fresh_proposal, db)
      else if q.trouble.lookup_fails
      then (failed, db)
      else found q (by_hash (hash q.presented) db.refresh_tokens) db

abbrev pub is_rotated : Answer → Bool
is_rotated (rotated out) = true
is_rotated other = false

-- The requests one after the other.
abbrev pub serve : (Token → Hash) → List Request → Db → Db
serve hash [] db = db
serve hash (q ∷ qs) db = serve hash qs (rotate_refresh_proposing hash q db).1
