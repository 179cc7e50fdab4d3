-- ===== src/Store/Tables.antt =====
-- The tables that a rotation reads and writes (migrations/0007_tokens.up.sql), one record per row, and
-- the statements of internal/store/refresh.go on them. A missing row is `none`; NULL is `none` too.
use catenary.Prelude.{
  ℕ, Bool, false, ◌&&◌, not, Option, none, some, List, [], ◌∷◌, ◌==◌, is_some, exists,
  if◌then◌else◌,
}

abbrev pub Uuid : Type 0
Uuid = ℕ

abbrev pub Token : Type 0
Token = ℕ

abbrev pub Hash : Type 0
Hash = ℕ

abbrev pub Time : Type 0
Time = ℕ

-- The empty string.
abbrev pub empty : Token
empty = 0

pub record RefreshRow : Type 0 where
  pub id : Uuid
  pub device_id : Uuid
  pub token_hash : Hash
  pub family_id : Uuid
  pub replaced_by : Option Uuid
  pub issued_at : Time
  pub expires_at : Time
  pub revoked_at : Option Time

pub record AccessRow : Type 0 where
  pub id : Uuid
  pub token_hash : Hash
  pub user_id : Uuid
  pub device_id : Option Uuid
  pub issued_at : Time
  pub expires_at : Option Time
  pub revoked_at : Option Time

pub record DeviceRow : Type 0 where
  pub id : Uuid
  pub user_id : Uuid
  pub revoked_at : Option Time

pub record UserRow : Type 0 where
  pub id : Uuid
  pub is_bot : Bool  -- kind is 'bot', not 'person'
  pub deactivated_at : Option Time

pub record Db : Type 0 where
  pub refresh_tokens : List RefreshRow
  pub access_tokens : List AccessRow
  pub devices : List DeviceRow
  pub users : List UserRow
  pub notified : List Uuid  -- the payloads on the revocation channel, the first one sent first

unfoldable pub by_hash : Hash → List RefreshRow → Option RefreshRow
by_hash h [] = none
by_hash h (r ∷ rs) = if r.token_hash == h then some r else by_hash h rs

unfoldable pub by_id : Uuid → List RefreshRow → Option RefreshRow
by_id i [] = none
by_id i (r ∷ rs) = if r.id == i then some r else by_id i rs

unfoldable pub device_of : Uuid → List DeviceRow → Option DeviceRow
device_of i [] = none
device_of i (d ∷ ds) = if d.id == i then some d else device_of i ds

unfoldable pub user_of : Uuid → List UserRow → Option UserRow
user_of i [] = none
user_of i (u ∷ us) = if u.id == i then some u else user_of i us

-- SET replaced_by = $2 WHERE r.id = $1.
unfoldable pub mark_replaced : Uuid → Uuid → List RefreshRow → List RefreshRow
mark_replaced i next [] = []
mark_replaced i next (r ∷ rs) =
    (if r.id == i then record r { replaced_by = some next } else r) ∷ mark_replaced i next rs

revoked_or : Option Time → Time → Option Time
revoked_or none now = some now
revoked_or (some at) now = some at

-- SET revoked_at = now() WHERE family_id = $1 AND revoked_at IS NULL.
unfoldable pub revoke_family : Uuid → Time → List RefreshRow → List RefreshRow
unfolding revoked_or
revoke_family f now [] = []
revoke_family f now (r ∷ rs) =
    (if r.family_id == f then record r { revoked_at = revoked_or r.revoked_at now } else r)
    ∷ revoke_family f now rs

-- Whether a nullable column holds this value: NULL holds none.
abbrev pub holds : Option Uuid → Uuid → Bool
holds none i = false
holds (some j) i = j == i

-- SET revoked_at = now() WHERE device_id = $1 AND revoked_at IS NULL.
unfoldable pub revoke_access : Uuid → Time → List AccessRow → List AccessRow
unfolding revoked_or
revoke_access d now [] = []
revoke_access d now (a ∷ rest) =
    (if holds a.device_id d then record a { revoked_at = revoked_or a.revoked_at now } else a)
    ∷ revoke_access d now rest

unfoldable pub revoke_device : Uuid → Time → List DeviceRow → List DeviceRow
unfolding revoked_or
revoke_device i now [] = []
revoke_device i now (d ∷ ds) =
    (if d.id == i then record d { revoked_at = revoked_or d.revoked_at now } else d)
    ∷ revoke_device i now ds

-- Whether the update of the device's row changed a row.
unfoldable pub severs : Uuid → List DeviceRow → Bool
severs i ds = exists (λ d. d.id == i && not (is_some d.revoked_at)) ds
