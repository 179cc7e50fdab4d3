-- ===== src/Hub/Revoke.antt =====
-- internal/hub/hub.go: OnRevocation and OnRevocationGap.
pub mod Gone
use catenary.Prelude.{
  ℕ, Bool, true, false, not, ◌&&◌, ◌||◌, Option, none, some, List, [], ◌∷◌, ◌++◌, ◌==◌, keep,
  exists, has, if◌then◌else◌,
}
use catenary.Hub.Sessions.{Uuid, Session, Hub, remove_all, close_all, close_revoked, close_restart}

pub record RevocationPayload : Type 0 where
  pub device_id : Option Uuid
  pub user_id : Option Uuid

abbrev pub is : Option Uuid → Uuid → Bool
is none a = false
is (some b) a = a == b

-- The sessions of the user first, then those of the device that were not among them.
unfoldable pub doomed_by : RevocationPayload → Hub → List Session
doomed_by p h =
    keep (λ s. is p.user_id s.user_id) h.sessions
    ++ keep (λ s. not (is p.user_id s.user_id) && is p.device_id s.device_id) h.sessions

-- A payload with no subject dooms no session.
unfoldable pub on_revocation : RevocationPayload → Hub → Hub
unfolding doomed_by
on_revocation p h =
    let doomed = doomed_by p h in close_all close_revoked doomed (remove_all doomed h)

-- The re-check after a gap: the sessions when it began (`all`), and what the store answered.
pub data DeadDevices : Type 0 where
  check_cancelled check_failed : DeadDevices
  dead_devices : List Uuid → DeadDevices

unfoldable pub sessions_on : Uuid → List Session → List Session
sessions_on d all = keep (λ s. s.device_id == d) all

unfoldable pub on_devices : List Uuid → List Session → List Session
unfolding sessions_on
on_devices [] all = []
on_devices (d ∷ ds) all = sessions_on d all ++ on_devices ds all

unfoldable pub on_revocation_gap : DeadDevices → List Session → Hub → Hub
on_revocation_gap check_cancelled all h = h
on_revocation_gap check_failed all h = close_all close_restart all (remove_all all h)
on_revocation_gap (dead_devices ds) all h =
    let doomed = on_devices ds all in close_all close_revoked doomed (remove_all doomed h)
