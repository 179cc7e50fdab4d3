-- ===== src/Store/Accounts/Door.antt =====
-- internal/store/tokens.go: the credentials of a new device at the door.
use catenary.Prelude.{
  ◌+◌, ◌<◌, ◌≡◌, refl, false, not, ◌||◌, Option, none, some, List, [], ◌∷◌, ◌++◌, ◌==◌, arith, ltb,
  is_some, length, split,
}
use mathlib.Core.Path.{subst}
use catenary.Store.Tables.{
  Token, Hash, Time, DeviceRow, AccessRow, UserRow, empty, user_of, device_of,
}
use catenary.Store.Log.{Text}
use catenary.Store.Rotation.{access_token_lifetime}
use catenary.Store.Accounts.{
  Accounts, EnrollmentRow, Enrollment, Grant, Outcome, granted, authenticate, joined, admit,
  admit_user, caller_of, access_by_hash, access_row, on_revoked, is_expired, redeem_enrollment,
  redeem_row, redeem_for, enrolled, enrollment_of, clashes, enrollment_by_hash,
  max_device_name_bytes,
}

access_by_hash-append_new :
    (h : Hash) (rows : List AccessRow) (a : AccessRow)
    → is_some (access_by_hash h rows) ≡ false
    → a.token_hash ≡ h
    → access_by_hash h (rows ++ a ∷ []) ≡ some a
unfolding access_by_hash
access_by_hash-append_new h [] a n e = ground (arith, e)
access_by_hash-append_new h (x ∷ rows) a n e = ground (arith, access_by_hash-append_new h rows a, e)

device_of-append_new :
    (ds : List DeviceRow) (d : DeviceRow)
    → is_some (device_of d.id ds) ≡ false
    → device_of d.id (ds ++ d ∷ []) ≡ some d
unfolding device_of
device_of-append_new [] d n = ground arith
device_of-append_new (x ∷ ds) d n = ground (arith, device_of-append_new ds d)

module _ (hash : Token → Hash) (g : Grant) where
  -- What the new device's access token is at the door, once a user's row is known.
  enrolled-admit :
      (e : EnrollmentRow) (s : Accounts) (u : UserRow) (now : Time)
      → clashes hash g s.tables ≡ false
      → is_some u.deactivated_at ≡ false
      → u.is_bot ≡ false
      → user_of e.user_id s.tables.users ≡ some u
      → now < g.now + access_token_lifetime
      → joined now
          (enrolled hash g e s).tables
          (access_by_hash (hash g.access) (enrolled hash g e s).tables.access_tokens)
        ≡ granted (record { user_id = e.user_id; device_id = g.device_id; is_bot = false })
  unfolding joined admit_user admit enrolled clashes caller_of access_row on_revoked is_expired
  enrolled-admit e s u now free active person known early =
      let a = access_row hash g e.user_id (some g.device_id) in
      let d : DeviceRow = record { id = g.device_id; user_id = e.user_id; revoked_at = none } in
      let row =
        access_by_hash-append_new (hash g.access) s.tables.access_tokens a (ground (arith, free))
          refl in
      let dev = device_of-append_new s.tables.devices d (ground (arith, free)) in
      rw (row, joined, known) (ground (arith, active, person, early, dev))

  Granted : Accounts → Outcome Enrollment × Accounts → Type 0
  Granted s r =
      (en : Enrollment) (now : Time)
      → r.0 ≡ granted en
      → now < en.access.expires_at
      → joined now r.1.tables (access_by_hash (hash en.access.plaintext) r.1.tables.access_tokens)
        ≡ granted (record { user_id = en.user_id; device_id = en.device_id; is_bot = false })

  redeem_for-Granted :
      (e : EnrollmentRow) (o : Option UserRow) (s : Accounts)
      → user_of e.user_id s.tables.users ≡ o
      → Granted s (redeem_for hash g e o s)
  unfolding Granted redeem_for enrollment_of
  redeem_for-Granted e none s known = λ en now h early. absurd (ground (arith, h))
  redeem_for-Granted e (some u) s known =
      split (λ (r : Outcome Enrollment × Accounts). Granted s r)
        (is_some u.deactivated_at || u.is_bot) (λ _ en now h early. absurd (ground (arith, h)))
        (λ person.
          split (λ (r : Outcome Enrollment × Accounts). Granted s r)
            (g.fails || clashes hash g s.tables) (λ _ en now h early. absurd (ground (arith, h)))
            (λ free en now h early.
              let eq : enrollment_of hash g e ≡ en = ground (arith, h) in
              subst
                (λ (x : Enrollment).
                  now < x.access.expires_at
                  → joined now (enrolled hash g e s).tables (
                      access_by_hash (hash x.access.plaintext)
                        (enrolled hash g e s).tables.access_tokens)
                    ≡ granted
                        (record { user_id = x.user_id; device_id = x.device_id; is_bot = false }))
                eq
                (enrolled-admit e s u now (ground (arith, free)) (ground (arith, person))
                  (ground (arith, person)) known)
                early))

  redeem_row-Granted : (o : Option EnrollmentRow) (s : Accounts) → Granted s (redeem_row hash g o s)
  unfolding Granted redeem_row
  redeem_row-Granted none s = λ en now h early. absurd (ground (arith, h))
  redeem_row-Granted (some e) s =
      split (λ (r : Outcome Enrollment × Accounts). Granted s r)
        (is_some e.redeemed_at || is_some e.superseded_at || not (ltb g.now e.expires_at))
        (λ _ en now h early. absurd (ground (arith, h)))
        (λ _. redeem_for-Granted e (user_of e.user_id s.tables.users) s refl)

  -- The access token of a redemption is admitted until its lifetime is over, as that user on
  -- that new device, if it is not the empty string.
  pub redeem-authenticate :
      (presented : Token) (name : Text) (s : Accounts) (en : Enrollment) (now : Time)
      → (redeem_enrollment hash presented name g s).0 ≡ granted en
      → (en.access.plaintext == empty) ≡ false
      → now < en.access.expires_at
      → authenticate hash en.access.plaintext now false
          (redeem_enrollment hash presented name g s).1.tables
        ≡ granted (record { user_id = en.user_id; device_id = en.device_id; is_bot = false })
  unfolding authenticate redeem_enrollment Granted
  redeem-authenticate presented name s en now h some_token early = rw some_token (
      split (λ (r : Outcome Enrollment × Accounts). Granted s r)
        (length name == 0 || ltb max_device_name_bytes (length name))
        (λ _ en now h early. absurd (ground (arith, h)))
        (λ _.
          split (λ (r : Outcome Enrollment × Accounts). Granted s r) (presented == empty)
            (λ _ en now h early. absurd (ground (arith, h)))
            (λ _. redeem_row-Granted (enrollment_by_hash (hash presented) s.enrollment_tokens) s))
        en now h early)
