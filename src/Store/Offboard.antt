-- ===== src/Store/Offboard.antt =====
-- internal/store/offboard.go: DeactivateUser and the reversal, reactivateTx, with what they use of
-- internal/store/metadata.go. The tables of the accounts and of the log are written in one transaction; a
-- statement that fails is a flag, and the fault switches of the tests are off.
pub mod Locked
use catenary.Prelude.{
  ℕ, ◌+◌, Bool, true, false, not, ◌&&◌, ◌||◌, Option, none, some, List, [], ◌∷◌, ◌++◌, ◌==◌, ltb,
  is_some, has, keep, length, exists, map, if◌then◌else◌,
}
use catenary.Store.Tables.{
  Uuid, Time, RefreshRow, AccessRow, DeviceRow, UserRow, Db, device_of, user_of,
}
use catenary.Store.Log.{MemberRow, PersonRow, LogDb, new_span}
use catenary.Store.Marks.{MetadataBump, new_metadata_bump, apply_bump}
use catenary.Store.Accounts.{EnrollmentRow, Accounts, supersede}

-- The two groups of tables, and the payloads of user revocations.
pub record Estate : Type 0 where
  pub accounts : Accounts
  pub log : LogDb
  pub revoked_users : List Uuid

pub record CredentialsRevoked : Type 0 where
  pub refresh_tokens : ℕ
  pub access_tokens : ℕ
  pub devices : ℕ
  pub enrollment_tokens : ℕ

abbrev pub is_changed : CredentialsRevoked → Bool
is_changed r =
    ltb 0 r.refresh_tokens || ltb 0 r.access_tokens || ltb 0 r.devices || ltb 0 r.enrollment_tokens

pub record Offboarded : Type 0 where
  pub user_id : Uuid
  pub deactivated : Bool
  pub revoked : CredentialsRevoked

pub data OffboardAnswer : Type 0 where
  offboarded : Offboarded → OffboardAnswer
  person_not_found offboard_failed : OffboardAnswer

-- device_id IN (SELECT id FROM devices WHERE user_id = $1).
abbrev pub is_on : Uuid → List DeviceRow → Uuid → Bool
is_on u devices d = exists (λ (x : DeviceRow). x.id == d && x.user_id == u) devices

abbrev pub is_live_refresh : Uuid → List DeviceRow → RefreshRow → Bool
is_live_refresh u devices r = is_on u devices r.device_id && not (is_some r.revoked_at)

abbrev pub is_live_access : Uuid → AccessRow → Bool
is_live_access u a = a.user_id == u && not (is_some a.revoked_at)

abbrev pub is_live_device : Uuid → DeviceRow → Bool
is_live_device u d = d.user_id == u && not (is_some d.revoked_at)

abbrev pub is_live_enrollment : Uuid → EnrollmentRow → Bool
is_live_enrollment u e =
    e.user_id == u && not (is_some e.redeemed_at) && not (is_some e.superseded_at)

unfoldable pub revoke_refresh_of : Uuid → Time → List DeviceRow → List RefreshRow → List RefreshRow
revoke_refresh_of u now devices [] = []
revoke_refresh_of u now devices (r ∷ rs) =
    (if is_live_refresh u devices r then record r { revoked_at = some now } else r)
    ∷ revoke_refresh_of u now devices rs

unfoldable pub revoke_access_of : Uuid → Time → List AccessRow → List AccessRow
revoke_access_of u now [] = []
revoke_access_of u now (a ∷ rest) =
    (if is_live_access u a then record a { revoked_at = some now } else a)
    ∷ revoke_access_of u now rest

unfoldable pub revoke_devices_of : Uuid → Time → List DeviceRow → List DeviceRow
revoke_devices_of u now [] = []
revoke_devices_of u now (d ∷ ds) =
    (if is_live_device u d then record d { revoked_at = some now } else d)
    ∷ revoke_devices_of u now ds

-- revokeCredentialsTx: what it counts, and what it leaves.
unfoldable pub credentials_of : Uuid → Accounts → CredentialsRevoked
credentials_of u s = record {
  refresh_tokens = length (keep (is_live_refresh u s.tables.devices) s.tables.refresh_tokens);
  access_tokens = length (keep (is_live_access u) s.tables.access_tokens);
  devices = length (keep (is_live_device u) s.tables.devices);
  enrollment_tokens = length (keep (is_live_enrollment u) s.enrollment_tokens);
}

unfoldable pub revoke_credentials : Uuid → Time → Accounts → Accounts
unfolding revoke_refresh_of revoke_access_of revoke_devices_of
revoke_credentials u now s = record {
  tables = record s.tables {
    refresh_tokens = revoke_refresh_of u now s.tables.devices s.tables.refresh_tokens;
    access_tokens = revoke_access_of u now s.tables.access_tokens;
    devices = revoke_devices_of u now s.tables.devices;
  };
  enrollment_tokens = supersede u now s.enrollment_tokens;
}

-- setDeactivatedAt and clearDeactivatedAt, on the two records that the model keeps of a row of users.
unfoldable pub set_deactivated_at : Uuid → Option Time → List UserRow → List UserRow
set_deactivated_at u at [] = []
set_deactivated_at u at (x ∷ xs) =
    (if x.id == u then record x { deactivated_at = at } else x) ∷ set_deactivated_at u at xs

unfoldable pub set_is_deactivated : Uuid → Bool → List PersonRow → List PersonRow
set_is_deactivated u b [] = []
set_is_deactivated u b (p ∷ ps) =
    (if p.id == u then record p { is_deactivated = b } else p) ∷ set_is_deactivated u b ps

-- lockRoomsOfPerson: each room once.
unfoldable pub rooms_of : Uuid → List MemberRow → List Uuid
rooms_of u [] = []
rooms_of u (m ∷ ms) =
    let rest = rooms_of u ms in
    if m.user_id == u && not (has m.conversation_id rest) then m.conversation_id ∷ rest else rest

-- notifyReadSpansOfPerson: one payload per room that the person has read in, all of one batch.
unfoldable pub notify_read_spans : Uuid → Uuid → LogDb → LogDb
notify_read_spans u batch db = record db {
  notified =
      db.notified
      ++ map (λ (m : MemberRow). new_span m.conversation_id u m.read_seq batch)
          (keep (λ (m : MemberRow). m.user_id == u && ltb 0 m.read_seq) db.members);
}

-- bumpDeactivationMarkers.
unfoldable pub bump_deactivation_markers : Uuid → LogDb → Option LogDb
unfolding rooms_of
bump_deactivation_markers u db =
    apply_bump (record new_metadata_bump { conversations = rooms_of u db.members; users = u ∷ [] })
      db

-- What the log's tables get when the mark is set or cleared now.
unfoldable pub mark_log : Uuid → Uuid → Bool → Bool → LogDb → Option LogDb
unfolding notify_read_spans bump_deactivation_markers set_is_deactivated
mark_log u batch b false db = some db
mark_log u batch b true db =
    bump_deactivation_markers u
      (notify_read_spans u batch (record db { people = set_is_deactivated u b db.people }))

abbrev pub commit_offboard :
    Offboarded → Accounts → List Uuid → Option LogDb → Estate → OffboardAnswer × Estate
commit_offboard out s revoked none e = (offboard_failed, e)
commit_offboard out s revoked (some log) e =
    (offboarded out, record { accounts = s; log = log; revoked_users = revoked })

abbrev pub with_users : List UserRow → Accounts → Accounts
with_users us s = record s { tables = record s.tables { users = us } }

-- The row of the person, which is not a bot's, and the writes of DeactivateUser.
unfoldable pub deactivate_row :
    Uuid → Time → Uuid → Option UserRow → Estate → OffboardAnswer × Estate
unfolding revoke_credentials credentials_of mark_log set_deactivated_at
deactivate_row u now batch none e = (person_not_found, e)
deactivate_row u now batch (some row) e =
    let first_time = not (is_some row.deactivated_at) in
    let users =
      if first_time
      then set_deactivated_at u (some now) e.accounts.tables.users
      else e.accounts.tables.users in
    let revoked = credentials_of u e.accounts in
    if row.is_bot
    then (person_not_found, e)
    else commit_offboard (record { user_id = u; deactivated = first_time; revoked = revoked })
        (with_users users (revoke_credentials u now e.accounts))
        (if first_time || is_changed revoked then e.revoked_users ++ u ∷ [] else e.revoked_users)
        (mark_log u batch true first_time e.log) e

-- DeactivateUser.
unfoldable pub deactivate_user : Uuid → Time → Uuid → Bool → Estate → OffboardAnswer × Estate
unfolding deactivate_row
deactivate_user u now batch fails e =
    if fails
    then (offboard_failed, e)
    else deactivate_row u now batch (user_of u e.accounts.tables.users) e

-- reactivateTx: the sweep once more, and then the mark is cleared.
unfoldable pub reactivate : Uuid → Time → Estate → Estate
unfolding revoke_credentials credentials_of set_deactivated_at
reactivate u now e = record e {
  accounts =
      with_users (set_deactivated_at u none e.accounts.tables.users)
        (revoke_credentials u now e.accounts);
  revoked_users =
      if is_changed (credentials_of u e.accounts)
      then e.revoked_users ++ u ∷ []
      else e.revoked_users;
}
