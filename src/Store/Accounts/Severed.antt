-- ===== src/Store/Accounts/Severed.antt =====
-- internal/store/tokens.go and refresh.go: a device after its revocation.
use catenary.Prelude.{
  ◌≡◌, refl, ap, ==→eq, Bool-cases, inl, inr, true, false, Option, none, some, List, [], ◌∷◌, ◌++◌,
  ◌==◌, arith, is_some, Option-cases, split,
}
use catenary.Store.Tables.{
  Uuid, Token, Hash, Time, Db, DeviceRow, RefreshRow, AccessRow, UserRow, empty, user_of, device_of,
  revoke_device, severs,
}
use catenary.Store.Rotation.{
  Request, Rotated, Answer, rotated, rotate_refresh_proposing, invalidate_family, is_revoked_device,
  is_spendable, rotated_db, issued,
}
use catenary.Store.Rotation.Effect.{Effect, keeps, invalidates, rotates, rotate-Effect}
use catenary.Store.Accounts.{
  Accounts, EnrollmentRow, Grant, Outcome, granted, denied, Caller, enrollment_by_hash, enrolled,
  on_revoked, authenticate, or_nil, joined, admit, admit_user, caller_of, access_by_hash,
  redeem_enrollment, redeem_row, redeem_for, issue_enrollment_token, issue_bot_token, bot_token_for,
  revoke, revoke_own, cut,
}
use catenary.Store.Accounts.Calls.{
  Call, redeeming, inviting, issuing_bot, revoking, revoking_own, rotating, call, calls,
}

-- The device's row is there and revoked.
abbrev pub Severed : Uuid → Accounts → Type 0
Severed d s = on_revoked (some d) s.tables.devices ≡ true

revoke_device-on_revoked :
    (d i : Uuid) (now : Time) (ds : List DeviceRow)
    → on_revoked (some d) ds ≡ true
    → on_revoked (some d) (revoke_device i now ds) ≡ true
unfolding on_revoked revoke_device device_of
revoke_device-on_revoked d i now [] v = v
revoke_device-on_revoked d i now (x ∷ ds) v = ground (arith, revoke_device-on_revoked d i now ds)

append-on_revoked :
    (d : Uuid) (ds more : List DeviceRow)
    → on_revoked (some d) ds ≡ true
    → on_revoked (some d) (ds ++ more) ≡ true
unfolding on_revoked device_of
append-on_revoked d [] more v = absurd (ground arith)
append-on_revoked d (x ∷ ds) more v = ground (arith, append-on_revoked d ds more)

revoke_device_now :
    (d : Uuid) (now : Time) (ds : List DeviceRow)
    → is_some (device_of d ds) ≡ true
    → on_revoked (some d) (revoke_device d now ds) ≡ true
unfolding on_revoked revoke_device device_of
revoke_device_now d now [] v = absurd (ground arith)
revoke_device_now d now (x ∷ ds) v = ground (arith, revoke_device_now d now ds)

-- With no live row of the device, it is revoked already.
severs_not :
    (d : Uuid) (ds : List DeviceRow)
    → severs d ds ≡ false
    → is_some (device_of d ds) ≡ true
    → on_revoked (some d) ds ≡ true
unfolding on_revoked severs device_of
severs_not d [] n v = absurd (ground arith)
severs_not d (x ∷ ds) n v = ground (arith, severs_not d ds)

module _ (hash : Token → Hash) (d : Uuid) where
  Effect-Severed :
      (q : Request) (db : Db) {o : Answer × Db}
      → Effect hash q db o
      → on_revoked (some d) db.devices ≡ true
      → on_revoked (some d) o.1.devices ≡ true
  unfolding invalidate_family rotated_db
  Effect-Severed q db (keeps a n) v = v
  Effect-Severed q db (invalidates r) v =
      split (λ (x : Db). on_revoked (some d) x.devices ≡ true) q.trouble.invalidate_fails (λ _. v)
        (λ _. revoke_device-on_revoked d r.device_id q.db_now db.devices v)
  Effect-Severed q db (rotates r user e s c) v = v

  redeem_for-Severed :
      (g : Grant) (e : EnrollmentRow) (o : Option UserRow) (s : Accounts)
      → Severed d s
      → Severed d (redeem_for hash g e o s).1
  unfolding redeem_for enrolled
  redeem_for-Severed g e none s v = v
  redeem_for-Severed g e (some u) s v =
      let more =
        append-on_revoked d s.tables.devices
          (record { id = g.device_id; user_id = e.user_id; revoked_at = none } ∷ []) v in
      ground (arith, v, more)

  redeem_row-Severed :
      (g : Grant) (o : Option EnrollmentRow) (s : Accounts)
      → Severed d s
      → Severed d (redeem_row hash g o s).1
  unfolding redeem_row
  redeem_row-Severed g none s v = v
  redeem_row-Severed g (some e) s v =
      ground (arith, v, redeem_for-Severed g e (user_of e.user_id s.tables.users) s v)

  bot-Severed :
      (u : Uuid) (g : Grant) (o : Option UserRow) (s : Accounts)
      → Severed d s
      → Severed d (bot_token_for hash u g o s).1
  unfolding bot_token_for
  bot-Severed u g none s v = v
  bot-Severed u g (some row) s v = ground (arith, v)

  call-Severed : (c : Call) (s : Accounts) → Severed d s → Severed d (call hash c s)
  unfolding call redeem_enrollment issue_enrollment_token issue_bot_token revoke revoke_own cut
  call-Severed (redeeming t name g) s v =
      ground (arith, v, redeem_row-Severed g (enrollment_by_hash (hash t) s.enrollment_tokens) s v)
  call-Severed (inviting u g) s v = ground (arith, v)
  call-Severed (issuing_bot u g) s v = bot-Severed u g (user_of u s.tables.users) s v
  call-Severed (revoking i g) s v =
      ground (arith, v, revoke_device-on_revoked d i g.db_now s.tables.devices v)
  call-Severed (revoking_own u i g) s v =
      ground (arith, v, revoke_device-on_revoked d i g.db_now s.tables.devices v)
  call-Severed (rotating q) s v = Effect-Severed q s.tables (rotate-Effect hash q s.tables) v

  pub calls-Severed : (cs : List Call) (s : Accounts) → Severed d s → Severed d (calls hash cs s)
  calls-Severed [] s v = v
  calls-Severed (c ∷ cs) s v = calls-Severed cs _ (call-Severed c s v)

  other_device :
      (x : Uuid) (devices : List DeviceRow)
      → on_revoked (some d) devices ≡ true
      → on_revoked (some x) devices ≡ false
      → (x == d) ≡ false
  other_device x devices v n = elim (Bool-cases (x == d)) [
    | inl same ↦
        absurd (ground (arith, v, n, ap (λ y. on_revoked (some y) devices) (==→eq x d same)))
    | inr other ↦ other
  ]

  or_nil-other :
      (o : Option Uuid) (devices : List DeviceRow)
      → (d == 0) ≡ false
      → on_revoked (some d) devices ≡ true
      → on_revoked o devices ≡ false
      → (or_nil o == d) ≡ false
  or_nil-other none devices n v h = ground (arith, n)
  or_nil-other (some x) devices n v h = other_device x devices v h

  admitted :
      (now : Time) (devices : List DeviceRow) (a : AccessRow) (u : UserRow) (c : Caller)
      → admit now devices a u ≡ granted c
      → (on_revoked a.device_id devices ≡ false) × (c ≡ caller_of a u)
  unfolding admit
  admitted now devices a u c h = ground (arith, h)

  other_user :
      (now : Time) (s : Accounts) (a : AccessRow) (o : Option UserRow) (c : Caller)
      → (d == 0) ≡ false
      → Severed d s
      → admit_user now s.tables.devices a o ≡ granted c
      → (c.device_id == d) ≡ false
  unfolding admit_user caller_of
  other_user now s a none c n v h = absurd (ground (arith, h))
  other_user now s a (some u) c n v h =
      let (off, is) = admitted now s.tables.devices a u c h in
      rw is (or_nil-other a.device_id s.tables.devices n v off)

  other_caller :
      (now : Time) (s : Accounts) (o : Option AccessRow) (c : Caller)
      → (d == 0) ≡ false
      → Severed d s
      → joined now s.tables o ≡ granted c
      → (c.device_id == d) ≡ false
  unfolding joined
  other_caller now s none c n v h = absurd (ground arith)
  other_caller now s (some a) c n v h =
      other_user now s a (user_of a.user_id s.tables.users) c n v h

  spendable_live :
      (q : Request) (r : RefreshRow) (db : Db)
      → is_spendable q r db ≡ true
      → on_revoked (some r.device_id) db.devices ≡ false
  unfolding is_spendable is_revoked_device on_revoked
  spendable_live q r db s = elim (Option-cases (device_of r.device_id db.devices)) [
    | inl n ↦ ground (arith, s, n)
    | inr (row, n) ↦ ground (arith, s, n)
  ]

  pub revoke-Severed :
      (g : Grant) (s : Accounts)
      → g.fails ≡ false
      → is_some (device_of d s.tables.devices) ≡ true
      → Severed d (revoke d g s).1
  unfolding revoke cut
  revoke-Severed g s up there = ground (
    arith,
    up,
    severs_not d s.tables.devices,
    revoke_device_now d g.db_now s.tables.devices there,
  )

  -- No caller on the device.
  abbrev pub IsOther : Outcome Caller → Type 0
  IsOther (granted c) = (c.device_id == d) ≡ false
  IsOther (denied e) = Unit

  -- No new pair for the device.
  abbrev pub IsOtherDevice : Answer → Type 0
  IsOtherDevice (rotated out) = (out.device_id == d) ≡ false
  IsOtherDevice a = Unit

  other_rotation :
      (q : Request) (db : Db) (o : Answer × Db) (out : Rotated)
      → Effect hash q db o
      → on_revoked (some d) db.devices ≡ true
      → o.0 ≡ rotated out
      → (out.device_id == d) ≡ false
  unfolding issued
  other_rotation q db o out (keeps a n) v h = absurd (ground (arith, n, h))
  other_rotation q db o out (invalidates r) v h = absurd (ground (arith, h))
  other_rotation q db o out (rotates r user e s c) v h =
      let off : on_revoked (some r.device_id) db.devices ≡ false = spendable_live q r db s in
      let other = other_device r.device_id db.devices v off in ground (arith, h, other)

  as_caller :
      (o : Outcome Caller) → ((c : Caller) → o ≡ granted c → (c.device_id == d) ≡ false) → IsOther o
  as_caller (granted c) f = f c refl
  as_caller (denied e) f = tt

  as_answer :
      (a : Answer)
      → ((out : Rotated) → a ≡ rotated out → (out.device_id == d) ≡ false)
      → IsOtherDevice a
  as_answer (rotated out) f = f out refl
  as_answer a f = tt

  -- After a device that exists is revoked, and whatever enrolments, bot tokens, revocations of
  -- devices and rotations come then, no access token is admitted as a caller on that device and
  -- no refresh rotates into a pair for it. The revocation does not fail, and the device's id is
  -- not the nil one.
  pub revoke-severs :
      (g : Grant) (s : Accounts) (cs : List Call) (t : Token) (now : Time) (q : Request)
      → (d == 0) ≡ false
      → g.fails ≡ false
      → is_some (device_of d s.tables.devices) ≡ true
      → let s' = calls hash cs (revoke d g s).1 in
        IsOther (authenticate hash t now false s'.tables)
        × IsOtherDevice (rotate_refresh_proposing hash q s'.tables).0
  unfolding authenticate
  revoke-severs g s cs t now q n up there =
      let v = calls-Severed cs (revoke d g s).1 (revoke-Severed g s up there) in
      let s' = calls hash cs (revoke d g s).1 in
      (
        split IsOther (t == empty) (λ _. tt)
            (λ _.
              as_caller (joined now s'.tables (access_by_hash (hash t) s'.tables.access_tokens))
                (λ c h.
                  other_caller now s' (access_by_hash (hash t) s'.tables.access_tokens) c n v h)),
        as_answer (rotate_refresh_proposing hash q s'.tables).0
            (λ out h. other_rotation q s'.tables _ out (rotate-Effect hash q s'.tables) v h),
      )
