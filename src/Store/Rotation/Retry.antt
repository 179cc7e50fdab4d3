-- ===== src/Store/Rotation/Retry.antt =====
-- internal/store/refresh.go, routeCollision: a client whose answer was lost, and that tries
-- again.
use catenary.Prelude.{◌+◌, ◌≡◌, ◌≢◌, ◌<◌, refl, sym, ap, true, none, some, [], ◌∷◌, ◌++◌, arith}
use mathlib.Core.Path.{subst}
use catenary.Store.Tables.{
  Uuid, Token, Hash, RefreshRow, DeviceRow, Db, by_hash, by_id, device_of, empty,
}
use catenary.Store.Rotation.SingleUse.{
  by_hash-mark_replaced, by_id-mark_replaced, by_hash-append, by_id-append,
}
use catenary.Store.Rotation.{
  Request, no_trouble, rotated, retry_present_proposal, spend, rotate_row, rotate_refresh_proposing,
  is_spendable, found, rotated_db, new_row, collides, route_collision, issued, in_grace,
  answer_or_refuse, route_of, collision_answer, on_device, successor_of, reuse_grace_window,
  refresh_token_lifetime,
}

module _ (hash : Token → Hash) where
  -- The retry finds the presented token's row replaced by the row with the proposal's hash.
  pub retry_answer :
      (q : Request) (r c : RefreshRow) (d : DeviceRow) (db : Db)
      → q.trouble ≡ no_trouble
      → q.presented ≢ empty
      → q.proposed ≢ empty
      → q.proposed ≢ q.presented
      → by_hash (hash q.presented) db.refresh_tokens ≡ some r
      → by_id r.id db.refresh_tokens ≡ some r
      → device_of r.device_id db.devices ≡ some d
      → r.replaced_by ≡ some c.id
      → by_hash (hash q.proposed) db.refresh_tokens ≡ some c
      → q.db_now < c.issued_at + reuse_grace_window
      → rotate_refresh_proposing hash q db ≡ (retry_present_proposal, db)
  unfolding rotate_refresh_proposing found on_device rotate_row collides route_collision route_of
      collision_answer answer_or_refuse in_grace
  retry_answer q r c d db nt p0 p1 p2 f fi fd rep fc w = ground arith

  -- A live row of a live device of an active account rotates, if the successor is new.
  pub live_rotates :
      (q : Request) (r : RefreshRow) (d : DeviceRow) (db : Db)
      → q.trouble ≡ no_trouble
      → q.presented ≢ empty
      → q.proposed ≢ q.presented
      → by_hash (hash q.presented) db.refresh_tokens ≡ some r
      → device_of r.device_id db.devices ≡ some d
      → is_spendable q r db ≡ true
      → by_hash (hash (successor_of hash q)) db.refresh_tokens ≡ none
      → rotate_refresh_proposing hash q db
        ≡ (rotated (issued hash q r d.user_id), rotated_db hash q r d.user_id db)
  unfolding rotate_refresh_proposing found on_device rotate_row collides spend
  live_rotates q r d db nt p0 p1 f fd sp fresh = ground arith

-- The rows after a rotation.
module _ (hash : Token → Hash) (q : Request) (r : RefreshRow) (user : Uuid) (db : Db) where
  spent_row : RefreshRow
  spent_row = record r { replaced_by = some q.new_id }

  after-by_hash_presented :
      by_hash (hash q.presented) db.refresh_tokens ≡ some r
      → by_hash (hash q.presented) (rotated_db hash q r user db).refresh_tokens ≡ some spent_row
  unfolding rotated_db spent_row
  after-by_hash_presented f =
      rw
        (
          by_hash-mark_replaced (hash q.presented) r.id q.new_id
              (db.refresh_tokens ++ new_row hash q r ∷ []),
          by_hash-append (hash q.presented) db.refresh_tokens (new_row hash q r ∷ []),
          f,
        )
        (ground arith)

  after-by_id_presented :
      by_id r.id db.refresh_tokens ≡ some r
      → by_id r.id (rotated_db hash q r user db).refresh_tokens ≡ some spent_row
  unfolding rotated_db spent_row
  after-by_id_presented f =
      rw
        (
          by_id-mark_replaced r.id r.id q.new_id (db.refresh_tokens ++ new_row hash q r ∷ []),
          by_id-append r.id db.refresh_tokens (new_row hash q r ∷ []),
          f,
        )
        (ground arith)

  devices_kept :
      {d : DeviceRow}
      → device_of r.device_id db.devices ≡ some d
      → device_of r.device_id (rotated_db hash q r user db).devices ≡ some d
  unfolding rotated_db
  devices_kept f = f

  new_row-by_hash :
      by_hash (hash (successor_of hash q)) db.refresh_tokens ≡ none
      → q.new_id ≢ r.id
      → by_hash (hash (successor_of hash q)) (rotated_db hash q r user db).refresh_tokens
        ≡ some (new_row hash q r)
  unfolding rotated_db by_hash new_row
  new_row-by_hash f ne =
      rw
        (
          by_hash-mark_replaced (hash (successor_of hash q)) r.id q.new_id
              (db.refresh_tokens ++ new_row hash q r ∷ []),
          by_hash-append (hash (successor_of hash q)) db.refresh_tokens (new_row hash q r ∷ []),
          f,
        )
        (ground arith)

-- The successor's row is live while its lifetime lasts, since its device and its user were.
successor-is_spendable :
    (hash : Token → Hash) (q q' : Request) (r : RefreshRow) (user : Uuid) (db : Db)
    → is_spendable q r db ≡ true
    → q'.now < q.now + refresh_token_lifetime
    → is_spendable q' (new_row hash q r) (rotated_db hash q r user db) ≡ true
unfolding is_spendable rotated_db new_row
successor-is_spendable hash q q' r user db s l = ground (arith, s)

successor_proposed :
    (hash : Token → Hash) (q : Request) → q.proposed ≢ empty → successor_of hash q ≡ q.proposed
successor_proposed hash q p = ground arith

retry_after :
    (hash : Token → Hash) (q q' : Request) (r : RefreshRow) (d : DeviceRow) (db : Db)
    → q'.trouble ≡ no_trouble
    → q.presented ≢ empty
    → q.proposed ≢ empty
    → q.proposed ≢ q.presented
    → by_hash (hash q.presented) db.refresh_tokens ≡ some r
    → by_id r.id db.refresh_tokens ≡ some r
    → device_of r.device_id db.devices ≡ some d
    → by_hash (hash q.proposed) db.refresh_tokens ≡ none
    → q.new_id ≢ r.id
    → q'.presented ≡ q.presented
    → q'.proposed ≡ q.proposed
    → q'.db_now < q.db_now + reuse_grace_window
    → rotate_refresh_proposing hash q' (rotated_db hash q r d.user_id db)
      ≡ (retry_present_proposal, rotated_db hash q r d.user_id db)
unfolding spent_row new_row
retry_after hash q q' r d db nt' p0 p1 p2 f fi fd fresh ne e1 e2 w =
    let s = successor_proposed hash q p1 in
    retry_answer hash q' (spent_row hash q r d.user_id db) (new_row hash q r) d
      (rotated_db hash q r d.user_id db) nt' (ground arith) (ground arith) (ground arith)
      (rw e1 (after-by_hash_presented hash q r d.user_id db f))
      (after-by_id_presented hash q r d.user_id db fi) (devices_kept hash q r d.user_id db fd) refl
      (rw e2 (
        subst
          (λ x.
            by_hash (hash x) (rotated_db hash q r d.user_id db).refresh_tokens
            ≡ some (new_row hash q r))
          s
          (new_row-by_hash hash q r d.user_id db
            (subst (λ x. by_hash (hash x) db.refresh_tokens ≡ none) (sym s) fresh) ne)))
      w

-- The first request rotates a live token into the proposal that it names. Its retry, with the
-- same token and proposal and within the grace window, changes nothing and is told to present the
-- proposal. The drawn id and the proposal are new, ids are unique at the row, and no statement
-- fails.
pub lost_answer-retry :
    (hash : Token → Hash) (q q' : Request) (r : RefreshRow) (d : DeviceRow) (db : Db)
    → q.trouble ≡ no_trouble
    → q'.trouble ≡ no_trouble
    → q.presented ≢ empty
    → q.proposed ≢ empty
    → q.proposed ≢ q.presented
    → by_hash (hash q.presented) db.refresh_tokens ≡ some r
    → by_id r.id db.refresh_tokens ≡ some r
    → device_of r.device_id db.devices ≡ some d
    → is_spendable q r db ≡ true
    → by_hash (hash q.proposed) db.refresh_tokens ≡ none
    → q.new_id ≢ r.id
    → q'.presented ≡ q.presented
    → q'.proposed ≡ q.proposed
    → q'.db_now < q.db_now + reuse_grace_window
    → let db' = (rotate_refresh_proposing hash q db).1 in
      rotate_refresh_proposing hash q' db' ≡ (retry_present_proposal, db')
lost_answer-retry hash q q' r d db nt nt' p0 p1 p2 f fi fd sp fresh ne e1 e2 w =
    let s = successor_proposed hash q p1 in
    let fresh_s = subst (λ x. by_hash (hash x) db.refresh_tokens ≡ none) (sym s) fresh in
    subst (λ o. rotate_refresh_proposing hash q' o.1 ≡ (retry_present_proposal, o.1))
      (sym (live_rotates hash q r d db nt p0 p2 f fd sp fresh_s))
      (retry_after hash q q' r d db nt' p0 p1 p2 f fi fd fresh ne e1 e2 w)

successor_device :
    (hash : Token → Hash) (q : Request) (r : RefreshRow) (d : DeviceRow) (db : Db)
    → device_of r.device_id db.devices ≡ some d
    → device_of (new_row hash q r).device_id (rotated_db hash q r d.user_id db).devices ≡ some d
unfolding new_row rotated_db
successor_device hash q r d db f = f

-- After a rotation whose answer was lost, a request that presents the proposal rotates, while the
-- successor's lifetime lasts and if the successor that this request stores is new. The first
-- request's token was live, its drawn id and its proposal new, and no statement fails.
pub lost_answer-present :
    (hash : Token → Hash) (q q' : Request) (r : RefreshRow) (d : DeviceRow) (db : Db)
    → q.trouble ≡ no_trouble
    → q'.trouble ≡ no_trouble
    → q.presented ≢ empty
    → q.proposed ≢ empty
    → q.proposed ≢ q.presented
    → by_hash (hash q.presented) db.refresh_tokens ≡ some r
    → device_of r.device_id db.devices ≡ some d
    → is_spendable q r db ≡ true
    → by_hash (hash q.proposed) db.refresh_tokens ≡ none
    → q.new_id ≢ r.id
    → q'.presented ≡ q.proposed
    → q'.proposed ≢ q'.presented
    → q'.now < q.now + refresh_token_lifetime
    → by_hash (hash (successor_of hash q')) (rotate_refresh_proposing hash q db).1.refresh_tokens
      ≡ none
    → (rotate_refresh_proposing hash q' (rotate_refresh_proposing hash q db).1).0
      ≡ rotated (issued hash q' (new_row hash q r) d.user_id)
lost_answer-present hash q q' r d db nt nt' p0 p1 p2 f fd sp fresh ne e1 p2' l fresh' =
    let s = successor_proposed hash q p1 in
    let fresh_s = subst (λ x. by_hash (hash x) db.refresh_tokens ≡ none) (sym s) fresh in
    let e = live_rotates hash q r d db nt p0 p2 f fd sp fresh_s in
    let db' = rotated_db hash q r d.user_id db in
    let next = new_row-by_hash hash q r d.user_id db fresh_s ne in
    rw e (
      ap (λ o. o.0)
        (live_rotates hash q' (new_row hash q r) d db' nt' (ground arith) p2'
          (rw e1
            (subst (λ x. by_hash (hash x) db'.refresh_tokens ≡ some (new_row hash q r)) s next))
          (successor_device hash q r d db fd) (successor-is_spendable hash q q' r d.user_id db sp l)
          (subst (λ o. by_hash (hash (successor_of hash q')) o.1.refresh_tokens ≡ none) e fresh')))
