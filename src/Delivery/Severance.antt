-- ===== src/Delivery/Severance.antt =====
-- internal/store/tokens.go (RevokeDevice, publishRevocation) and internal/hub/hub.go (OnRevocation): what
-- a revocation publishes, and what it does to the sessions of an instance that hears it.
use catenary.Prelude.{
  ℕ, ◌≡◌, refl, sym, Bool-cases, inl, inr, is_some, has, map, IsDistinct, true, false, none, some,
  List, [], ◌∷◌, ◌++◌, ◌==◌, arith, if◌then◌else◌,
}
use mathlib.Core.Path.{subst}
use catenary.Hub.Sessions.{Session, Hub, find}
use catenary.Hub.Outbox.{ids, IsTable}
use catenary.Hub.Revoke.{RevocationPayload, on_revocation, on_revocation_gap, dead_devices}
use catenary.Hub.Revoke.Gone.{on_revocation-find, on_revocation_gap-find}
use catenary.Store.Tables.{Uuid, Token, Hash, Db, device_of}
use catenary.Store.Accounts.{Accounts, Grant, granted, revoke, cut}
use catenary.Store.Accounts.Calls.{Call, calls}
use catenary.Store.Accounts.Severed.{calls-Severed, revoke-Severed}
use catenary.Store.Fanout.{read_dead_devices}
use catenary.Store.Fanout.Named.{has_owner, read_dead_devices-has}

-- RevocationPayload{DeviceID: &deviceID}.
abbrev pub payload_of : Uuid → RevocationPayload
payload_of d = record { device_id = some d; user_id = none }

-- What an instance does with the payloads, one after the other.
abbrev pub hear : List Uuid → Hub → Hub
hear [] h = h
hear (d ∷ ds) h = hear ds (on_revocation (payload_of d) h)

-- The payloads that one call added.
abbrev pub drop_heard : List Uuid → List Uuid → List Uuid
drop_heard [] after = after
drop_heard (x ∷ before) [] = []
drop_heard (x ∷ before) (y ∷ after) = drop_heard before after

drop_heard-append : (xs ys : List Uuid) → drop_heard xs (xs ++ ys) ≡ ys
drop_heard-append [] ys = refl
drop_heard-append (x ∷ xs) ys = drop_heard-append xs ys

revoke-notified :
    (d : Uuid) (g : Grant) (s : Accounts)
    → (revoke d g s).0 ≡ granted true
    → (revoke d g s).1.tables.notified ≡ s.tables.notified ++ d ∷ []
unfolding revoke cut
revoke-notified d g s h = ground (arith, h)

-- A session is off the table, on an instance that hears what a device's revocation published,
-- exactly if it is on that device; any other stays with its outbox. The revocation took effect,
-- and sessions have different numbers.
pub revoke-closes :
    (d : Uuid) (g : Grant) (s : Accounts) (h : Hub) (i : ℕ) (x : Session)
    → (revoke d g s).0 ≡ granted true
    → IsTable h
    → find i h.sessions ≡ some x
    → find i (hear (drop_heard s.tables.notified (revoke d g s).1.tables.notified) h).sessions
      ≡ (if x.device_id == d then none else some x)
revoke-closes d g s h i x done table f =
    rw (revoke-notified d g s done, drop_heard-append s.tables.notified (d ∷ []))
      (ground (arith, on_revocation-find (payload_of d) i x h table f))

-- OnRevocationGap with the answer of DeadDevices; `all` are the sessions when it asks.
abbrev pub recheck : Db → List Session → Hub → Hub
recheck db all h =
    on_revocation_gap (dead_devices (read_dead_devices (map (λ (x : Session). x.device_id) all) db))
      all h

has-device :
    (i : ℕ) (all : List Session) (x : Session)
    → find i all ≡ some x
    → has x.device_id (map (λ (y : Session). y.device_id) all) ≡ true
unfolding find
has-device i [] x f = absurd (ground (arith, f))
has-device i (y ∷ ys) x f = elim (Bool-cases (y.id == i)) [
  | inl e ↦ ground (arith, e, f)
  | inr e ↦ ground (arith, e, f, has-device i ys x)
]

module _ (hash : Token → Hash) where
  -- A device that exists was revoked, and enrolments, bot tokens, revocations of devices and
  -- rotations followed: an instance that heard none of it takes that device's sessions off the
  -- table at the re-check after its gap, those that were there when it asked, whatever the
  -- table came to hold meanwhile. The revocation did not fail, the account of the device has a
  -- row, and sessions have different numbers.
  pub revoke-recheck :
      (d : Uuid) (g : Grant) (s : Accounts) (cs : List Call) (i : ℕ) (all : List Session)
      (x : Session) (h : Hub)
      → g.fails ≡ false
      → is_some (device_of d s.tables.devices) ≡ true
      → has_owner d (calls hash cs (revoke d g s).1).tables ≡ true
      → IsTable h
      → IsDistinct (ids all)
      → find i all ≡ some x
      → x.device_id ≡ d
      → find i (recheck (calls hash cs (revoke d g s).1).tables all h).sessions ≡ none
  revoke-recheck d g s cs i all x h up there owner t n f e =
      let db = (calls hash cs (revoke d g s).1).tables in
      let asked = map (λ (y : Session). y.device_id) all in
      on_revocation_gap-find i (read_dead_devices asked db) all h x t n f (
        subst (λ j. has j (read_dead_devices asked db) ≡ true) (sym e)
          (read_dead_devices-has d asked db
            (subst (λ j. has j asked ≡ true) e (has-device i all x f)) owner
            (calls-Severed hash d cs (revoke d g s).1 (revoke-Severed hash d g s up there))))
