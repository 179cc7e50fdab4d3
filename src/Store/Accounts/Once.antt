-- ===== src/Store/Accounts/Once.antt =====
-- internal/store/tokens.go: an enrolment token after its redemption.
use catenary.Prelude.{
  ◌≡◌, refl, inl, inr, Bool, true, false, ◌||◌, Option, none, some, List, [], ◌∷◌, ◌++◌, arith,
  is_some, Option-cases, split,
}
use catenary.Store.Tables.{Uuid, Token, Hash, Time, user_of, UserRow}
use catenary.Store.Log.{Text}
use catenary.Store.Rotation.{IssuedToken}
use catenary.Store.Accounts.{
  Accounts, EnrollmentRow, Enrollment, Grant, Outcome, granted, enrollment_by_hash, supersede,
  mark_redeemed, enrolled, redeem_enrollment, redeem_row, redeem_for, issue_enrollment_token,
  issue_bot_token, bot_token_for, revoke, revoke_own,
}
use catenary.Store.Accounts.Calls.{
  Call, redeeming, inviting, issuing_bot, revoking, revoking_own, rotating, call, calls, is_granted,
}

-- The token of this hash is redeemed.
unfoldable pub is_spent : Hash → List EnrollmentRow → Bool
unfolding enrollment_by_hash
is_spent h es = elim (enrollment_by_hash h es) [ none ↦ false | some e ↦ is_some e.redeemed_at ]

mark_redeemed-is_spent :
    (h : Hash) (i d : Uuid) (now : Time) (es : List EnrollmentRow)
    → is_spent h es ≡ true
    → is_spent h (mark_redeemed i d now es) ≡ true
unfolding mark_redeemed is_spent
mark_redeemed-is_spent h i d now [] s = s
mark_redeemed-is_spent h i d now (e ∷ es) s = ground (arith, mark_redeemed-is_spent h i d now es)

mark_redeemed_now :
    (h : Hash) (d : Uuid) (now : Time) (es : List EnrollmentRow) (e : EnrollmentRow)
    → enrollment_by_hash h es ≡ some e
    → is_spent h (mark_redeemed e.id d now es) ≡ true
unfolding mark_redeemed is_spent
mark_redeemed_now h d now [] e f = ground arith
mark_redeemed_now h d now (x ∷ es) e f = ground (arith, mark_redeemed_now h d now es e)

supersede-is_spent :
    (h : Hash) (u : Uuid) (now : Time) (es : List EnrollmentRow)
    → is_spent h es ≡ true
    → is_spent h (supersede u now es) ≡ true
unfolding supersede is_spent
supersede-is_spent h u now [] s = s
supersede-is_spent h u now (e ∷ es) s = ground (arith, supersede-is_spent h u now es)

append-is_spent :
    (h : Hash) (es more : List EnrollmentRow)
    → is_spent h es ≡ true
    → is_spent h (es ++ more) ≡ true
unfolding is_spent
append-is_spent h [] more s = absurd (ground arith)
append-is_spent h (e ∷ es) more s = ground (arith, append-is_spent h es more)

module _ (hash : Token → Hash) (h : Hash) where
  redeem_row-is_spent :
      (g : Grant) (o : Option EnrollmentRow) (s : Accounts)
      → is_spent h s.enrollment_tokens ≡ true
      → is_spent h (redeem_row hash g o s).1.enrollment_tokens ≡ true
  unfolding redeem_row redeem_for enrolled
  redeem_row-is_spent g none s v = v
  redeem_row-is_spent g (some e) s v = elim (Option-cases (user_of e.user_id s.tables.users)) [
    | inl n ↦ rw n (ground (arith, v))
    | inr (u, n) ↦
        rw n (
          ground (arith, v, mark_redeemed-is_spent h e.id g.device_id g.db_now s.enrollment_tokens))
  ]

  bot-is_spent :
      (u : Uuid) (g : Grant) (o : Option UserRow) (s : Accounts)
      → is_spent h s.enrollment_tokens ≡ true
      → is_spent h (bot_token_for hash u g o s).1.enrollment_tokens ≡ true
  unfolding bot_token_for
  bot-is_spent u g none s v = v
  bot-is_spent u g (some row) s v = ground (arith, v)

  call-is_spent :
      (c : Call) (s : Accounts)
      → is_spent h s.enrollment_tokens ≡ true
      → is_spent h (call hash c s).enrollment_tokens ≡ true
  unfolding call redeem_enrollment issue_enrollment_token issue_bot_token revoke revoke_own
  call-is_spent (redeeming t name g) s v =
      ground (arith, v, redeem_row-is_spent g (enrollment_by_hash (hash t) s.enrollment_tokens) s v)
  call-is_spent (inviting u g) s v =
      split (λ (r : Outcome IssuedToken × Accounts). is_spent h r.1.enrollment_tokens ≡ true)
        (g.fails || is_some (enrollment_by_hash (hash g.token) s.enrollment_tokens)) (λ _. v)
        (λ _. append-is_spent h _ _ (supersede-is_spent h u g.db_now s.enrollment_tokens v))
  call-is_spent (issuing_bot u g) s v = bot-is_spent u g (user_of u s.tables.users) s v
  call-is_spent (revoking d g) s v = ground (arith, v)
  call-is_spent (revoking_own u d g) s v = ground (arith, v)
  call-is_spent (rotating q) s v = v

  calls-is_spent :
      (cs : List Call) (s : Accounts)
      → is_spent h s.enrollment_tokens ≡ true
      → is_spent h (calls hash cs s).enrollment_tokens ≡ true
  calls-is_spent [] s v = v
  calls-is_spent (c ∷ cs) s v = calls-is_spent cs _ (call-is_spent c s v)

module _ (hash : Token → Hash) (presented : Token) where
  redeem_row_granted :
      (g : Grant) (o : Option EnrollmentRow) (s : Accounts) (e : Enrollment)
      → enrollment_by_hash (hash presented) s.enrollment_tokens ≡ o
      → (redeem_row hash g o s).0 ≡ granted e
      → is_spent (hash presented) (redeem_row hash g o s).1.enrollment_tokens ≡ true
  unfolding redeem_row redeem_for enrolled
  redeem_row_granted g none s e f h = absurd (ground arith)
  redeem_row_granted g (some row) s e f h =
      elim (Option-cases (user_of row.user_id s.tables.users)) [
        | inl n ↦ absurd (ground (arith, h, n))
        | inr (u, n) ↦
            let now =
              mark_redeemed_now (hash presented) g.device_id g.db_now s.enrollment_tokens row f in
            ground (arith, h, n, now)
      ]

  redeem_granted :
      (name : Text) (g : Grant) (s : Accounts) (e : Enrollment)
      → (redeem_enrollment hash presented name g s).0 ≡ granted e
      → is_spent (hash presented) (redeem_enrollment hash presented name g s).1.enrollment_tokens
        ≡ true
  unfolding redeem_enrollment
  redeem_granted name g s e h =
      let r =
        redeem_row_granted g (enrollment_by_hash (hash presented) s.enrollment_tokens) s e refl in
      ground (arith, h, r)

  redeem_spent :
      (name : Text) (g : Grant) (s : Accounts)
      → is_spent (hash presented) s.enrollment_tokens ≡ true
      → is_granted (redeem_enrollment hash presented name g s).0 ≡ false
  unfolding redeem_enrollment redeem_row is_spent
  redeem_spent name g s v =
      elim (Option-cases (enrollment_by_hash (hash presented) s.enrollment_tokens)) [
        | inl n ↦ absurd (ground (arith, n, v))
        | inr (e, n) ↦ ground (arith, n, v)
      ]

  -- An enrolment token that was redeemed is never redeemed again, whatever enrolments, bot
  -- tokens, revocations of devices and rotations come between.
  pub redeem-once :
      (name name' : Text) (g g' : Grant) (s : Accounts) (e : Enrollment) (cs : List Call)
      → (redeem_enrollment hash presented name g s).0 ≡ granted e
      → is_granted
          (redeem_enrollment hash presented name' g'
            (calls hash cs (redeem_enrollment hash presented name g s).1)).0
        ≡ false
  redeem-once name name' g g' s e cs h =
      redeem_spent name' g' _
        (calls-is_spent hash (hash presented) cs _ (redeem_granted name g s e h))
