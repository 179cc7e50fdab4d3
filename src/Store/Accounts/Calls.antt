-- ===== src/Store/Accounts/Calls.antt =====
-- internal/store/tokens.go and refresh.go: enrolments, bot tokens, revocations of devices and rotations,
-- in any order. What offboard.go does to an account, and its reversal, are in Store/Offboard.antt.
use catenary.Prelude.{Bool, true, false, List, [], ◌∷◌}
use catenary.Store.Tables.{Uuid, Token, Hash}
use catenary.Store.Log.{Text}
use catenary.Store.Rotation.{Request, rotate_refresh_proposing}
use catenary.Store.Accounts.{
  Accounts, Grant, Outcome, granted, denied, redeem_enrollment, issue_enrollment_token,
  issue_bot_token, revoke, revoke_own,
}

pub data Call : Type 0 where
  redeeming : Token → Text → Grant → Call
  inviting : Uuid → Grant → Call
  issuing_bot : Uuid → Grant → Call
  revoking : Uuid → Grant → Call
  revoking_own : Uuid → Uuid → Grant → Call
  rotating : Request → Call

abbrev pub is_granted : {A : Type 0} → Outcome A → Bool
is_granted (granted a) = true
is_granted (denied e) = false

module _ (hash : Token → Hash) where
  unfoldable pub call : Call → Accounts → Accounts
  call (redeeming presented name g) s = (redeem_enrollment hash presented name g s).1
  call (inviting user g) s = (issue_enrollment_token hash user g s).1
  call (issuing_bot user g) s = (issue_bot_token hash user g s).1
  call (revoking d g) s = (revoke d g s).1
  call (revoking_own user d g) s = (revoke_own user d g s).1
  call (rotating q) s = record s { tables = (rotate_refresh_proposing hash q s.tables).1 }

  -- The calls one after the other.
  abbrev pub calls : List Call → Accounts → Accounts
  calls [] s = s
  calls (c ∷ cs) s = calls cs (call c s)
