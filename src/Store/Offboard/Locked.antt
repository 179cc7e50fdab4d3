-- ===== src/Store/Offboard/Locked.antt =====
-- internal/store/offboard.go, with tokens.go and refresh.go: a deactivated person at every door.
use catenary.Prelude.{
  ◌≡◌, refl, sym, ap, ◌∙◌, inl, inr, Bool, true, false, not, ◌||◌, Option, none, some, List, [],
  ◌∷◌, ◌==◌, ==→eq, arith, ltb, is_some, length, Bool-cases, split,
}
use catenary.Store.Tables.{
  Uuid, Token, Hash, Time, Db, DeviceRow, AccessRow, UserRow, empty, user_of,
}
use catenary.Store.Log.{Text, LogDb}
use catenary.Store.Rotation.{Request, Answer, invalidate_family, rotated_db}
use catenary.Store.Rotation.Effect.{Effect, keeps, invalidates, rotates, rotate-Effect}
use catenary.Store.Accounts.{
  Accounts, EnrollmentRow, Enrollment, Grant, Outcome, granted, denied, Caller, enrolled,
  enrollment_by_hash, enrollment_of, authenticate, joined, admit, admit_user, is_expired,
  on_revoked, clashes, max_device_name_bytes, caller_of, access_by_hash, redeem_enrollment,
  redeem_row, redeem_for, issue_enrollment_token, issue_bot_token, bot_token_for, revoke,
  revoke_own, cut,
}
use catenary.Store.Accounts.Calls.{
  Call, redeeming, inviting, issuing_bot, revoking, revoking_own, rotating, call, calls,
}
use catenary.Store.Offboard.{
  Estate, OffboardAnswer, Offboarded, offboarded, deactivate_user, deactivate_row,
  set_deactivated_at, commit_offboard,
}

abbrev is_marked : Option UserRow → Bool
is_marked none = false
is_marked (some row) = is_some row.deactivated_at

-- The user's row is there and deactivated.
unfoldable pub is_out : Uuid → List UserRow → Bool
is_out u users = is_marked (user_of u users)

module _ (hash : Token → Hash) where
  Effect-users :
      (q : Request) (db : Db) {o : Answer × Db} → Effect hash q db o → o.1.users ≡ db.users
  unfolding invalidate_family rotated_db
  Effect-users q db (keeps a n) = refl
  Effect-users q db (invalidates r) =
      split (λ (x : Db). x.users ≡ db.users) q.trouble.invalidate_fails (λ _. refl) (λ _. refl)
  Effect-users q db (rotates r user e s c) = refl

  redeem_for-users :
      (g : Grant) (e : EnrollmentRow) (o : Option UserRow) (s : Accounts)
      → (redeem_for hash g e o s).1.tables.users ≡ s.tables.users
  unfolding redeem_for enrolled
  redeem_for-users g e none s = refl
  redeem_for-users g e (some u) s = ground arith

  redeem_row-users :
      (g : Grant) (o : Option EnrollmentRow) (s : Accounts)
      → (redeem_row hash g o s).1.tables.users ≡ s.tables.users
  unfolding redeem_row
  redeem_row-users g none s = refl
  redeem_row-users g (some e) s =
      ground (arith, redeem_for-users g e (user_of e.user_id s.tables.users) s)

  bot-users :
      (u : Uuid) (g : Grant) (o : Option UserRow) (s : Accounts)
      → (bot_token_for hash u g o s).1.tables.users ≡ s.tables.users
  unfolding bot_token_for
  bot-users u g none s = refl
  bot-users u g (some row) s = ground arith

  call-users : (c : Call) (s : Accounts) → (call hash c s).tables.users ≡ s.tables.users
  unfolding call redeem_enrollment issue_enrollment_token issue_bot_token revoke revoke_own cut
  call-users (redeeming t name g) s =
      ground (arith, redeem_row-users g (enrollment_by_hash (hash t) s.enrollment_tokens) s)
  call-users (inviting u g) s = ground arith
  call-users (issuing_bot u g) s = bot-users u g (user_of u s.tables.users) s
  call-users (revoking d g) s = ground arith
  call-users (revoking_own u d g) s = ground arith
  call-users (rotating q) s = Effect-users q s.tables (rotate-Effect hash q s.tables)

  calls-users : (cs : List Call) (s : Accounts) → (calls hash cs s).tables.users ≡ s.tables.users
  calls-users [] s = refl
  calls-users (c ∷ cs) s = calls-users cs (call hash c s) ∙ call-users c s

module _ (u : Uuid) where
  set_deactivated_at-is_out :
      (at : Time) (us : List UserRow)
      → is_some (user_of u us) ≡ true
      → is_out u (set_deactivated_at u (some at) us) ≡ true
  unfolding set_deactivated_at is_out user_of
  set_deactivated_at-is_out at [] h = absurd (ground (arith, h))
  set_deactivated_at-is_out at (x ∷ us) h = ground (arith, set_deactivated_at-is_out at us)

  out_row :
      (users : List UserRow) (row : UserRow)
      → user_of u users ≡ some row
      → is_some row.deactivated_at ≡ true
      → is_out u users ≡ true
  unfolding is_out
  out_row users row h before = ap is_marked h ∙ before

  -- What an answer that deactivated leaves of the users.
  Out : OffboardAnswer × Estate → Type 0
  Out r = (o : Offboarded) → r.0 ≡ offboarded o → is_out u r.1.accounts.tables.users ≡ true

  commit_offboard-Out :
      (out : Offboarded) (s : Accounts) (revoked : List Uuid) (o : Option LogDb) (e : Estate)
      → is_out u s.tables.users ≡ true
      → Out (commit_offboard out s revoked o e)
  unfolding Out
  commit_offboard-Out out s revoked none e h = λ o eq. absurd (ground (arith, eq))
  commit_offboard-Out out s revoked (some log) e h = λ o eq. h

  deactivate_row-Out :
      (now : Time) (batch : Uuid) (o : Option UserRow) (e : Estate)
      → user_of u e.accounts.tables.users ≡ o
      → Out (deactivate_row u now batch o e)
  unfolding Out deactivate_row
  deactivate_row-Out now batch none e h = λ o eq. absurd (ground (arith, eq))
  deactivate_row-Out now batch (some row) e h =
      split Out row.is_bot (λ _ o eq. absurd (ground (arith, eq)))
        (λ _. commit_offboard-Out _ _ _ _ e (
          split (λ (us : List UserRow). is_out u us ≡ true) (not (is_some row.deactivated_at))
            (λ _. set_deactivated_at-is_out now e.accounts.tables.users (ap is_some h))
            (λ before. out_row e.accounts.tables.users row h (ground (arith, before)))))

  deactivate_user-Out :
      (now : Time) (batch : Uuid) (fails : Bool) (e : Estate)
      → Out (deactivate_user u now batch fails e)
  unfolding Out deactivate_user
  deactivate_user-Out now batch fails e =
      split Out fails (λ _ o eq. absurd (ground (arith, eq)))
        (λ _. deactivate_row-Out now batch (user_of u e.accounts.tables.users) e refl)

  other_user :
      (x : Uuid) (users : List UserRow)
      → is_out u users ≡ true
      → is_out x users ≡ false
      → (x == u) ≡ false
  other_user x users v n = elim (Bool-cases (x == u)) [
    | inl same ↦ absurd (ground (arith, v, n, ap (λ y. is_out y users) (==→eq x u same)))
    | inr other ↦ other
  ]

  in_row :
      (x : Uuid) (users : List UserRow) (o : Option UserRow)
      → user_of x users ≡ o
      → is_marked o ≡ false
      → is_out x users ≡ false
  unfolding is_out
  in_row x users o h e = ap is_marked h ∙ e

  -- No caller who is the user.
  abbrev pub IsNotCaller : Outcome Caller → Type 0
  IsNotCaller (granted c) = (c.user_id == u) ≡ false
  IsNotCaller (denied e) = Unit

  -- No device for the user.
  abbrev pub IsNotEnrolled : Outcome Enrollment → Type 0
  IsNotEnrolled (granted en) = (en.user_id == u) ≡ false
  IsNotEnrolled (denied e) = Unit

  module _ (users : List UserRow) (v : is_out u users ≡ true) where
    admit_user-IsNotCaller :
        (now : Time) (devices : List DeviceRow) (a : AccessRow) (o : Option UserRow)
        → user_of a.user_id users ≡ o
        → IsNotCaller (admit_user now devices a o)
    unfolding admit_user admit caller_of is_expired on_revoked
    admit_user-IsNotCaller now devices a none h = tt
    admit_user-IsNotCaller now devices a (some row) h =
        split IsNotCaller (is_some a.revoked_at) (λ _. tt)
          (λ _.
            split IsNotCaller (is_expired a.expires_at now) (λ _. tt)
              (λ _.
                split IsNotCaller (on_revoked a.device_id devices) (λ _. tt)
                  (λ _.
                    split IsNotCaller (is_some row.deactivated_at) (λ _. tt)
                      (λ active.
                        other_user a.user_id users v
                          (in_row a.user_id users (some row) h active)))))

    joined-IsNotCaller :
        (now : Time) (db : Db) (o : Option AccessRow)
        → db.users ≡ users
        → IsNotCaller (joined now db o)
    unfolding joined
    joined-IsNotCaller now db none same = tt
    joined-IsNotCaller now db (some a) same =
        admit_user-IsNotCaller now db.devices a (user_of a.user_id db.users)
          (ap (user_of a.user_id) (sym same))

    module _ (hash : Token → Hash) where
      redeem_for-IsNotEnrolled :
          (g : Grant) (e : EnrollmentRow) (o : Option UserRow) (s : Accounts)
          → user_of e.user_id users ≡ o
          → IsNotEnrolled (redeem_for hash g e o s).0
      unfolding redeem_for enrollment_of
      redeem_for-IsNotEnrolled g e none s h = tt
      redeem_for-IsNotEnrolled g e (some row) s h =
          split (λ (r : Outcome Enrollment × Accounts). IsNotEnrolled r.0)
            (is_some row.deactivated_at || row.is_bot) (λ _. tt)
            (λ active.
              split (λ (r : Outcome Enrollment × Accounts). IsNotEnrolled r.0)
                (g.fails || clashes hash g s.tables) (λ _. tt)
                (λ _.
                  other_user e.user_id users v
                    (in_row e.user_id users (some row) h (ground (arith, active)))))

      redeem_row-IsNotEnrolled :
          (g : Grant) (o : Option EnrollmentRow) (s : Accounts)
          → s.tables.users ≡ users
          → IsNotEnrolled (redeem_row hash g o s).0
      unfolding redeem_row
      redeem_row-IsNotEnrolled g none s same = tt
      redeem_row-IsNotEnrolled g (some e) s same =
          split (λ (r : Outcome Enrollment × Accounts). IsNotEnrolled r.0)
            (is_some e.redeemed_at || is_some e.superseded_at || not (ltb g.now e.expires_at))
            (λ _. tt)
            (λ _.
              redeem_for-IsNotEnrolled g e (user_of e.user_id s.tables.users) s
                (ap (user_of e.user_id) (sym same)))

  -- Once a person was deactivated, no access token is admitted as that person and no enrolment
  -- token puts a device under that account, whatever enrolments, bot tokens, revocations of
  -- devices and rotations come then. A reactivation is not among them.
  pub deactivate_user-bars :
      (hash : Token → Hash) (now : Time) (batch : Uuid) (fails : Bool) (e : Estate) (o : Offboarded)
      (cs : List Call) (t : Token) (at : Time) (name : Text) (g : Grant)
      → (deactivate_user u now batch fails e).0 ≡ offboarded o
      → let s = calls hash cs (deactivate_user u now batch fails e).1.accounts in
        IsNotCaller (authenticate hash t at false s.tables)
        × IsNotEnrolled (redeem_enrollment hash t name g s).0
  unfolding authenticate redeem_enrollment Out
  deactivate_user-bars hash now batch fails e o cs t at name g h =
      let s0 = (deactivate_user u now batch fails e).1.accounts in
      let s = calls hash cs s0 in
      let v = deactivate_user-Out now batch fails e o h in
      let same = calls-users hash cs s0 in
      (
        split IsNotCaller (t == empty) (λ _. tt)
            (λ _.
              joined-IsNotCaller s0.tables.users v at s.tables
                (access_by_hash (hash t) s.tables.access_tokens) same),
        split (λ (r : Outcome Enrollment × Accounts). IsNotEnrolled r.0)
            (length name == 0 || ltb max_device_name_bytes (length name)) (λ _. tt)
            (λ _.
              split (λ (r : Outcome Enrollment × Accounts). IsNotEnrolled r.0) (t == empty)
                (λ _. tt)
                (λ _.
                  redeem_row-IsNotEnrolled s0.tables.users v hash g
                    (enrollment_by_hash (hash t) s.enrollment_tokens) s same)),
      )
