-- ===== src/Store/Rotation/Replay.antt =====
-- internal/store/refresh.go, invalidateFamily: a spent token presented after the grace window.
use catenary.Prelude.{
  ◌+◌, ◌≡◌, ◌≢◌, ◌≤◌, refl, sym, ap, ◌∙◌, Bool, true, false, not, Option, none, some, List, [], ◌∷◌,
  ◌++◌, ◌==◌, is_some, arith, ◌||◌, All, All-append, split,
}
use mathlib.Core.Path.{subst}
use catenary.Store.Tables.{
  Uuid, Token, Hash, Time, RefreshRow, AccessRow, DeviceRow, Db, by_hash, by_id, device_of, empty,
  mark_replaced, revoke_family, revoke_access, revoke_device, holds, severs,
}
use catenary.Store.Rotation.Effect.{Effect, keeps, invalidates, rotates, rotate-Effect}
use catenary.Store.Rotation.{
  Request, Trouble, no_trouble, Answer, unauthorized, spend, rotate_row, rotate_refresh_proposing,
  is_spendable, found, rotated_db, new_row, collides, refusal_outcome, in_grace, on_device,
  reuse_grace_window, invalidate_family, refusal_of, replaced_outcome, spent_token_outcome,
  is_rotated, serve,
}

-- A row that is not of this family, or is revoked.
abbrev pub dead : Uuid → RefreshRow → Bool
dead f x = not (x.family_id == f) || is_some x.revoked_at

abbrev pub dead_access : Uuid → AccessRow → Bool
dead_access d x = not (holds x.device_id d) || is_some x.revoked_at

abbrev pub dead_device : Uuid → DeviceRow → Bool
dead_device i x = not (x.id == i) || is_some x.revoked_at

-- No row of the family is live, no access token of the device, and not the device.
abbrev pub IsDead : Uuid → List RefreshRow → Type 0
IsDead f rs = All (λ x. dead f x ≡ true) rs

abbrev pub IsCut : Uuid → Db → Type 0
IsCut d db =
    All (λ x. dead_access d x ≡ true) db.access_tokens
    × All (λ x. dead_device d x ≡ true) db.devices

revoke_family-IsDead :
    (f : Uuid) (now : Time) (rs : List RefreshRow) → IsDead f (revoke_family f now rs)
unfolding revoke_family
revoke_family-IsDead f now [] = tt
revoke_family-IsDead f now (r ∷ rs) = (ground arith, revoke_family-IsDead f now rs)

revoke_access-dead :
    (d : Uuid) (now : Time) (rs : List AccessRow)
    → All (λ x. dead_access d x ≡ true) (revoke_access d now rs)
unfolding revoke_access
revoke_access-dead d now [] = tt
revoke_access-dead d now (r ∷ rs) = (ground arith, revoke_access-dead d now rs)

revoke_device-dead :
    (d : Uuid) (now : Time) (rs : List DeviceRow)
    → All (λ x. dead_device d x ≡ true) (revoke_device d now rs)
unfolding revoke_device
revoke_device-dead d now [] = tt
revoke_device-dead d now (r ∷ rs) = (ground arith, revoke_device-dead d now rs)

-- A family that is dead stays dead when another family's rows are revoked.
other_family-IsDead :
    (f g : Uuid) (now : Time) (rs : List RefreshRow)
    → IsDead f rs
    → IsDead f (revoke_family g now rs)
unfolding revoke_family
other_family-IsDead f g now [] a = tt
other_family-IsDead f g now (r ∷ rs) a = (ground (arith, a.0), other_family-IsDead f g now rs a.1)

mark_replaced-IsDead :
    (f i next : Uuid) (rs : List RefreshRow) → IsDead f rs → IsDead f (mark_replaced i next rs)
unfolding mark_replaced
mark_replaced-IsDead f i next [] a = tt
mark_replaced-IsDead f i next (r ∷ rs) a =
    (ground (arith, a.0), mark_replaced-IsDead f i next rs a.1)

by_hash-dead :
    (f : Uuid) (h : Hash) (r : RefreshRow) (rs : List RefreshRow)
    → IsDead f rs
    → by_hash h rs ≡ some r
    → dead f r ≡ true
unfolding by_hash
by_hash-dead f h r [] a e = absurd (ground arith)
by_hash-dead f h r (x ∷ rs) a e = ground (arith, a.0, by_hash-dead f h r rs a.1)

family_of : Option RefreshRow → Uuid
family_of none = 0
family_of (some r) = r.family_id

refused_dead :
    (f : Uuid) (q : Request) (r x : RefreshRow) (db : Db)
    → dead f r ≡ true
    → some r ≡ some x
    → x.family_id ≡ f
    → is_spendable q r db ≡ true
    → ⊥
unfolding is_spendable family_of
refused_dead f q r x db d rx e s = ground (arith, ap family_of rx)

module _ (hash : Token → Hash) where
  new_row-dead :
      (f : Uuid) (q : Request) (r : RefreshRow) (db : Db)
      → is_spendable q r db ≡ true
      → dead f r ≡ true
      → dead f (new_row hash q r) ≡ true
  unfolding is_spendable new_row
  new_row-dead f q r db s d = ground arith

  Effect-IsDead :
      (f : Uuid) (q : Request) (db : Db) {o : Answer × Db}
      → Effect hash q db o
      → IsDead f db.refresh_tokens
      → IsDead f o.1.refresh_tokens
  unfolding invalidate_family rotated_db
  Effect-IsDead f q db (keeps a n) d = d
  Effect-IsDead f q db (invalidates r) d =
      split (λ (x : Db). IsDead f x.refresh_tokens) q.trouble.invalidate_fails (λ _. d)
        (λ _. other_family-IsDead f r.family_id q.db_now db.refresh_tokens d)
  Effect-IsDead f q db (rotates r user e s c) d =
      mark_replaced-IsDead f r.id q.new_id (db.refresh_tokens ++ new_row hash q r ∷ []) (
        All-append _ db.refresh_tokens (new_row hash q r ∷ []) d
          (new_row-dead f q r db s (by_hash-dead f (hash q.presented) r db.refresh_tokens d e), tt))

  serve-IsDead :
      (f : Uuid) (qs : List Request) (db : Db)
      → IsDead f db.refresh_tokens
      → IsDead f (serve hash qs db).refresh_tokens
  serve-IsDead f [] db d = d
  serve-IsDead f (q ∷ qs) db d =
      serve-IsDead f qs _ (Effect-IsDead f q db (rotate-Effect hash q db) d)

  Effect-dead_refused :
      (f : Uuid) (q : Request) (x : RefreshRow) (db : Db) {o : Answer × Db}
      → Effect hash q db o
      → IsDead f db.refresh_tokens
      → by_hash (hash q.presented) db.refresh_tokens ≡ some x
      → x.family_id ≡ f
      → is_rotated o.0 ≡ false
  Effect-dead_refused f q x db (keeps a n) d g e = n
  Effect-dead_refused f q x db (invalidates r) d g e = refl
  Effect-dead_refused f q x db (rotates r user h s c) d g e = absurd (
      refused_dead f q r x db (by_hash-dead f (hash q.presented) r db.refresh_tokens d h)
        (sym h ∙ g) e s)

-- The row of a token that was replaced, and whose successor is out of the grace window, is invalidated
-- with its family by any request that presents it.
pub replay_answer :
    (hash : Token → Hash) (q : Request) (r s : RefreshRow) (d : DeviceRow) (db : Db)
    → q.trouble ≡ no_trouble
    → q.presented ≢ empty
    → q.proposed ≢ q.presented
    → by_hash (hash q.presented) db.refresh_tokens ≡ some r
    → by_id r.id db.refresh_tokens ≡ some r
    → device_of r.device_id db.devices ≡ some d
    → r.replaced_by ≡ some s.id
    → by_id s.id db.refresh_tokens ≡ some s
    → s.issued_at + reuse_grace_window ≤ q.db_now
    → collides hash q db ≡ false
    → rotate_refresh_proposing hash q db ≡ (unauthorized, invalidate_family q r db)
unfolding rotate_refresh_proposing found on_device rotate_row spend is_spendable refusal_outcome
    refusal_of replaced_outcome spent_token_outcome in_grace
replay_answer hash q r s d db nt p0 p2 f fi fd rep fs w c = ground arith

invalidate_family-IsDead :
    (q : Request) (r : RefreshRow) (db : Db)
    → q.trouble.invalidate_fails ≡ false
    → IsDead r.family_id (invalidate_family q r db).refresh_tokens
      × IsCut r.device_id (invalidate_family q r db)
unfolding invalidate_family
invalidate_family-IsDead q r db n = rw n (
  revoke_family-IsDead r.family_id q.db_now db.refresh_tokens,
  (
    revoke_access-dead r.device_id q.db_now db.access_tokens,
    revoke_device-dead r.device_id q.db_now db.devices,
  ),
)

-- A token that was rotated, presented again once the grace window of its successor is over: the
-- request is refused, and no row of its family is live any more, nor its device, nor an access
-- token of the device. Ids are unique at the two rows, the successor that the request would store
-- is new, and no statement fails.
pub replay-revokes :
    (hash : Token → Hash) (q : Request) (r s : RefreshRow) (d : DeviceRow) (db : Db)
    → q.trouble ≡ no_trouble
    → q.presented ≢ empty
    → q.proposed ≢ q.presented
    → by_hash (hash q.presented) db.refresh_tokens ≡ some r
    → by_id r.id db.refresh_tokens ≡ some r
    → device_of r.device_id db.devices ≡ some d
    → r.replaced_by ≡ some s.id
    → by_id s.id db.refresh_tokens ≡ some s
    → s.issued_at + reuse_grace_window ≤ q.db_now
    → collides hash q db ≡ false
    → let (a, db') = rotate_refresh_proposing hash q db in
      (a ≡ unauthorized) × IsDead r.family_id db'.refresh_tokens × IsCut r.device_id db'
replay-revokes hash q r s d db nt p0 p2 f fi fd rep fs w c =
    subst
      (λ o. (o.0 ≡ unauthorized) × IsDead r.family_id o.1.refresh_tokens × IsCut r.device_id o.1)
      (sym (replay_answer hash q r s d db nt p0 p2 f fi fd rep fs w c))
      (let d = invalidate_family-IsDead q r db (ap (λ (t : Trouble). t.invalidate_fails) nt) in
        (refl, d.0, d.1))

-- A replay is final: after it and any requests that follow it, a request with a token of the
-- family does not rotate. The replay is of a rotated token after the grace window, with ids
-- unique at the two rows, a new successor and no failing statement.
pub replay-final :
    (hash : Token → Hash) (q : Request) (r s : RefreshRow) (d : DeviceRow) (db : Db)
    → (qs : List Request) (q' : Request) (x : RefreshRow) → q.trouble ≡ no_trouble
    → q.presented ≢ empty
    → q.proposed ≢ q.presented
    → by_hash (hash q.presented) db.refresh_tokens ≡ some r
    → by_id r.id db.refresh_tokens ≡ some r
    → device_of r.device_id db.devices ≡ some d
    → r.replaced_by ≡ some s.id
    → by_id s.id db.refresh_tokens ≡ some s
    → s.issued_at + reuse_grace_window ≤ q.db_now
    → collides hash q db ≡ false
    → by_hash (hash q'.presented) (serve hash (q ∷ qs) db).refresh_tokens ≡ some x
    → x.family_id ≡ r.family_id
    → is_rotated (rotate_refresh_proposing hash q' (serve hash (q ∷ qs) db)).0 ≡ false
replay-final hash q r s d db qs q' x nt p0 p2 f fi fd rep fs w c g e =
    let now_dead = replay-revokes hash q r s d db nt p0 p2 f fi fd rep fs w c in
    let last = serve hash (q ∷ qs) db in
    Effect-dead_refused hash r.family_id q' x last (rotate-Effect hash q' last)
      (serve-IsDead hash r.family_id qs (rotate_refresh_proposing hash q db).1 now_dead.1) g e

revoke_family_twice :
    (f : Uuid) (now later : Time) (rs : List RefreshRow)
    → revoke_family f later (revoke_family f now rs) ≡ revoke_family f now rs
unfolding revoke_family
revoke_family_twice f now later [] = refl
revoke_family_twice f now later (r ∷ rs) = ground (arith, revoke_family_twice f now later rs)

revoke_access_twice :
    (d : Uuid) (now later : Time) (rs : List AccessRow)
    → revoke_access d later (revoke_access d now rs) ≡ revoke_access d now rs
unfolding revoke_access
revoke_access_twice d now later [] = refl
revoke_access_twice d now later (r ∷ rs) = ground (arith, revoke_access_twice d now later rs)

revoke_device_twice :
    (d : Uuid) (now later : Time) (rs : List DeviceRow)
    → revoke_device d later (revoke_device d now rs) ≡ revoke_device d now rs
unfolding revoke_device
revoke_device_twice d now later [] = refl
revoke_device_twice d now later (r ∷ rs) = ground (arith, revoke_device_twice d now later rs)

severs-revoke_device :
    (d : Uuid) (now : Time) (rs : List DeviceRow) → severs d (revoke_device d now rs) ≡ false
unfolding severs revoke_device
severs-revoke_device d now [] = refl
severs-revoke_device d now (r ∷ rs) = ground (arith, severs-revoke_device d now rs)

-- An invalidation after one that succeeded finds nothing live: it changes no table and publishes
-- nothing.
pub invalidate_family_idempotent :
    (q q' : Request) (r : RefreshRow) (db : Db)
    → q.trouble.invalidate_fails ≡ false
    → invalidate_family q' r (invalidate_family q r db) ≡ invalidate_family q r db
unfolding invalidate_family
invalidate_family_idempotent q q' r db n = ground (
  arith,
  revoke_family_twice r.family_id q.db_now q'.db_now db.refresh_tokens,
  revoke_access_twice r.device_id q.db_now q'.db_now db.access_tokens,
  revoke_device_twice r.device_id q.db_now q'.db_now db.devices,
  severs-revoke_device r.device_id q.db_now db.devices,
)
