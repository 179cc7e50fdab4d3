-- ===== src/Client/Terminal.antt =====
-- internal/client/terminal.go, and the door that internal/store/senderror.go leaves it: what the end
-- of a session means, and when a client stops for good.
use catenary.Prelude.{
  ℕ, ◌≡◌, refl, inl, inr, ◌↔◌, Bool, true, false, Option, none, some, arith, Bool-cases, ==→eq,
  ◌==◌, if◌then◌else◌,
}
use catenary.Client.State.{Client, TerminalKind, not_terminal}

-- wire.ErrorCode as the client decoder leaves it: a code of a later server is `unknown`.
pub data ErrorCode : Type 0 where
  unauthorized wire_version_unsupported rate_limited not_a_member conversation_not_found : ErrorCode
  message_too_large upload_not_found internal unknown : ErrorCode

pub data CloseVerdict : Type 0 where
  reconnect reconnect_at_maximum stop_protocol_failure : CloseVerdict

abbrev pub status_revoked : ℕ
status_revoked = 4001

abbrev pub status_policy_violation : ℕ
status_policy_violation = 1008

-- store.IsInternalCode.
unfoldable pub is_internal_code : ErrorCode → Bool
is_internal_code internal = true
is_internal_code _ = false

abbrev pub is_permanent : ErrorCode → Bool
is_permanent unauthorized = true
is_permanent wire_version_unsupported = true
is_permanent _ = false

classify_policy : Option ErrorCode → CloseVerdict
unfolding is_internal_code
classify_policy none = stop_protocol_failure
classify_policy (some code) =
    if is_permanent code
    then stop_protocol_failure
    else if is_internal_code code
    then reconnect_at_maximum
    else reconnect

-- The status is none where websocket.CloseStatus gives -1: there was no close frame.
unfoldable pub classify_close : Option ℕ → Option ErrorCode → CloseVerdict
unfolding classify_policy
classify_close none preceding = reconnect
classify_close (some status) preceding =
    if status == status_revoked
    then stop_protocol_failure
    else if status == status_policy_violation
    then classify_policy preceding
    else reconnect

-- Client.stop: the first terminal wins.
unfoldable pub stop : Client → TerminalKind → Client
stop c t = elim c.terminal [ not_terminal ↦ record c { terminal = t } | _ ↦ c ]

-- What a client must never come back from: the revoked code, and a 1008 that is bare or follows a
-- refusal of the credential or of the wire version.
pub data IsFatal : Option ℕ → Option ErrorCode → Type 0 where
  revoked : (p : Option ErrorCode) → IsFatal (some 4001) p
  bare : IsFatal (some 1008) none
  credential : IsFatal (some 1008) (some unauthorized)
  version : IsFatal (some 1008) (some wire_version_unsupported)

fatal-stops :
    {s : Option ℕ} {p : Option ErrorCode} → IsFatal s p → classify_close s p ≡ stop_protocol_failure
unfolding classify_close
fatal-stops (revoked p) = refl
fatal-stops bare = refl
fatal-stops credential = refl
fatal-stops version = refl

policy-IsFatal :
    (p : Option ErrorCode) → classify_policy p ≡ stop_protocol_failure → IsFatal (some 1008) p
unfolding classify_policy
policy-IsFatal none h = bare
policy-IsFatal (some unauthorized) h = credential
policy-IsFatal (some wire_version_unsupported) h = version
policy-IsFatal (some code) h = absurd (ground arith)

stops-IsFatal :
    (s : Option ℕ) (p : Option ErrorCode) → classify_close s p ≡ stop_protocol_failure → IsFatal s p
unfolding classify_close
stops-IsFatal none p h = absurd (ground arith)
stops-IsFatal (some s) p h = elim (Bool-cases (s == 4001)) [
  | inl q ↦ rw (==→eq s 4001 q) (revoked p)
  | inr q ↦ elim (Bool-cases (s == 1008)) [
    | inl r ↦ rw (==→eq s 1008 r) (policy-IsFatal p (ground arith))
    | inr r ↦ absurd (ground arith)
  ]
]

-- A session's end stops the client exactly when it is the revoked code, or a 1008 that is bare or
-- follows a refusal of the credential or of the wire version; every other close reconnects.
pub classify_close-eq-stop_iff :
    (s : Option ℕ) (p : Option ErrorCode)
    → (classify_close s p ≡ stop_protocol_failure) ↔ IsFatal s p
classify_close-eq-stop_iff s p = (stops-IsFatal s p, fatal-stops)
