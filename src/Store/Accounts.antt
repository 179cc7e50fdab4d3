-- ===== src/Store/Accounts.antt =====
-- internal/store/tokens.go: Authenticate, the enrolment tokens, the bot tokens, and the revocation of a
-- device. Each transaction is one step; a statement that fails is a flag. The hash (SHA-256) is a
-- parameter, and what MintToken draws is given with the ids and the two clocks.
pub mod Calls
pub mod Once
pub mod Severed
pub mod Door
use catenary.Prelude.{
  ℕ, ◌+◌, ◌*◌, Bool, true, false, not, ◌&&◌, ◌||◌, Option, none, some, List, [], ◌∷◌, ◌++◌, ◌==◌,
  ltb, is_some, length, if◌then◌else◌,
}
use catenary.Store.Tables.{
  Uuid, Token, Hash, Time, empty, RefreshRow, AccessRow, DeviceRow, UserRow, Db, by_hash, device_of,
  user_of, revoke_device, severs,
}
use catenary.Store.Log.{Text}
use catenary.Store.Rotation.{IssuedToken, access_token_lifetime, refresh_token_lifetime}

abbrev pub enrollment_token_lifetime : ℕ
enrollment_token_lifetime = 7 * 24 * 3600 * 1000000000

abbrev pub max_device_name_bytes : ℕ
max_device_name_bytes = 128

pub record EnrollmentRow : Type 0 where
  pub id : Uuid
  pub user_id : Uuid
  pub token_hash : Hash
  pub expires_at : Time
  pub redeemed_at : Option Time
  pub redeemed_by_device : Option Uuid
  pub superseded_at : Option Time

-- The tables of the rotation, and the enrolment tokens.
pub record Accounts : Type 0 where
  pub tables : Db
  pub enrollment_tokens : List EnrollmentRow

pub record Caller : Type 0 where
  pub user_id : Uuid
  pub device_id : Uuid  -- 0 for a bot
  pub is_bot : Bool

pub data Refusal : Type 0 where
  unauthorized device_name_required not_a_bot failed : Refusal

pub data Outcome (A : Type 0) : Type 0 where
  granted : A → Outcome A
  denied : Refusal → Outcome A

-- What a call draws: ids, tokens, the server's clock and the database's, and whether a statement fails.
pub record Grant : Type 0 where
  pub row_id : Uuid
  pub device_id : Uuid
  pub refresh_id : Uuid
  pub access_id : Uuid
  pub token : Token
  pub refresh : Token
  pub access : Token
  pub now : Time
  pub db_now : Time
  pub fails : Bool

pub record Enrollment : Type 0 where
  pub user_id : Uuid
  pub device_id : Uuid
  pub access : IssuedToken
  pub refresh : IssuedToken

unfoldable pub access_by_hash : Hash → List AccessRow → Option AccessRow
access_by_hash h [] = none
access_by_hash h (a ∷ rest) = if a.token_hash == h then some a else access_by_hash h rest

unfoldable pub enrollment_by_hash : Hash → List EnrollmentRow → Option EnrollmentRow
enrollment_by_hash h [] = none
enrollment_by_hash h (e ∷ es) = if e.token_hash == h then some e else enrollment_by_hash h es

-- The expiry is in the past; a bot's token has none.
unfoldable pub is_expired : Option Time → Time → Bool
is_expired none now = false
is_expired (some at) now = not (ltb now at)

-- The device of the row, if it has one, is revoked. A left join: no row is no mark.
unfoldable pub on_revoked : Option Uuid → List DeviceRow → Bool
on_revoked none devices = false
on_revoked (some d) devices = elim (device_of d devices) [
  | none ↦ false
  | some row ↦ is_some row.revoked_at
]

abbrev pub or_nil : Option Uuid → Uuid
or_nil none = 0
or_nil (some d) = d

unfoldable pub caller_of : AccessRow → UserRow → Caller
caller_of a u = record { user_id = a.user_id; device_id = or_nil a.device_id; is_bot = u.is_bot }

-- The four doors, over the joined row.
unfoldable pub admit : Time → List DeviceRow → AccessRow → UserRow → Outcome Caller
unfolding is_expired on_revoked caller_of
admit now devices a u =
    if is_some a.revoked_at
    then denied unauthorized
    else if is_expired a.expires_at now
    then denied unauthorized
    else if on_revoked a.device_id devices
    then denied unauthorized
    else if is_some u.deactivated_at
    then denied unauthorized
    else granted (caller_of a u)

unfoldable pub admit_user : Time → List DeviceRow → AccessRow → Option UserRow → Outcome Caller
unfolding admit
admit_user now devices a none = denied unauthorized
admit_user now devices a (some u) = admit now devices a u

unfoldable pub joined : Time → Db → Option AccessRow → Outcome Caller
unfolding admit_user
joined now db none = denied unauthorized
joined now db (some a) = admit_user now db.devices a (user_of a.user_id db.users)

-- SET superseded_at = now() on the user's live tokens.
unfoldable pub supersede : Uuid → Time → List EnrollmentRow → List EnrollmentRow
supersede u now [] = []
supersede u now (e ∷ es) =
    (if e.user_id == u && not (is_some e.redeemed_at) && not (is_some e.superseded_at)
      then record e { superseded_at = some now }
      else e)
    ∷ supersede u now es

unfoldable pub mark_redeemed : Uuid → Uuid → Time → List EnrollmentRow → List EnrollmentRow
mark_redeemed i device now [] = []
mark_redeemed i device now (e ∷ es) =
    (if e.id == i then record e { redeemed_at = some now; redeemed_by_device = some device } else e)
    ∷ mark_redeemed i device now es

module _ (hash : Token → Hash) where
  -- Authenticate.
  unfoldable pub authenticate : Token → Time → Bool → Db → Outcome Caller
  unfolding joined
  authenticate presented now fails db =
      if presented == empty
      then denied unauthorized
      else if fails
      then denied failed
      else joined now db (access_by_hash (hash presented) db.access_tokens)

  -- IssueEnrollmentToken; the hash is unique.
  unfoldable pub issue_enrollment_token : Uuid → Grant → Accounts → Outcome IssuedToken × Accounts
  unfolding supersede
  issue_enrollment_token user g s =
      if g.fails || is_some (enrollment_by_hash (hash g.token) s.enrollment_tokens)
      then (denied failed, s)
      else (
        granted (record { plaintext = g.token; expires_at = g.now + enrollment_token_lifetime }),
        record s {
          enrollment_tokens =
              supersede user g.db_now s.enrollment_tokens
              ++ record {
                id = g.row_id;
                user_id = user;
                token_hash = hash g.token;
                expires_at = g.now + enrollment_token_lifetime;
                redeemed_at = none;
                redeemed_by_device = none;
                superseded_at = none;
              }
                ∷ [];
        },
      )

  -- issueRefresh: the first of its family.
  unfoldable pub first_refresh : Grant → RefreshRow
  first_refresh g = record {
    id = g.refresh_id;
    device_id = g.device_id;
    token_hash = hash g.refresh;
    family_id = g.refresh_id;
    replaced_by = none;
    issued_at = g.db_now;
    expires_at = g.now + refresh_token_lifetime;
    revoked_at = none;
  }

  -- issueAccess: with no device there is no expiry.
  unfoldable pub access_row : Grant → Uuid → Option Uuid → AccessRow
  access_row g user device = record {
    id = g.access_id;
    token_hash = hash g.access;
    user_id = user;
    device_id = device;
    issued_at = g.db_now;
    expires_at = elim device [ none ↦ none | some d ↦ some (g.now + access_token_lifetime) ];
    revoked_at = none;
  }

  -- A unique column would have its value twice.
  unfoldable pub clashes : Grant → Db → Bool
  clashes g db =
      is_some (device_of g.device_id db.devices)
      || is_some (by_hash (hash g.refresh) db.refresh_tokens)
      || is_some (access_by_hash (hash g.access) db.access_tokens)

  -- What a redemption commits.
  unfoldable pub enrolled : Grant → EnrollmentRow → Accounts → Accounts
  unfolding first_refresh access_row mark_redeemed
  enrolled g e s = record {
    tables = record s.tables {
      devices =
          s.tables.devices
          ++ record { id = g.device_id; user_id = e.user_id; revoked_at = none } ∷ [];
      refresh_tokens = s.tables.refresh_tokens ++ first_refresh g ∷ [];
      access_tokens = s.tables.access_tokens ++ access_row g e.user_id (some g.device_id) ∷ [];
    };
    enrollment_tokens = mark_redeemed e.id g.device_id g.db_now s.enrollment_tokens;
  }

  unfoldable pub enrollment_of : Grant → EnrollmentRow → Enrollment
  enrollment_of g e = record {
    user_id = e.user_id;
    device_id = g.device_id;
    access = record { plaintext = g.access; expires_at = g.now + access_token_lifetime };
    refresh = record { plaintext = g.refresh; expires_at = g.now + refresh_token_lifetime };
  }

  -- The user of the token: a person, and not deactivated. No row is a statement that fails.
  unfoldable pub redeem_for :
      Grant → EnrollmentRow → Option UserRow → Accounts → Outcome Enrollment × Accounts
  unfolding enrolled enrollment_of clashes
  redeem_for g e none s = (denied failed, s)
  redeem_for g e (some u) s =
      if is_some u.deactivated_at || u.is_bot
      then (denied unauthorized, s)
      else if g.fails || clashes g s.tables
      then (denied failed, s)
      else (granted (enrollment_of g e), enrolled g e s)

  unfoldable pub redeem_row :
      Grant → Option EnrollmentRow → Accounts → Outcome Enrollment × Accounts
  unfolding redeem_for
  redeem_row g none s = (denied unauthorized, s)
  redeem_row g (some e) s =
      if is_some e.redeemed_at || is_some e.superseded_at || not (ltb g.now e.expires_at)
      then (denied unauthorized, s)
      else redeem_for g e (user_of e.user_id s.tables.users) s

  -- RedeemEnrollment.
  unfoldable pub redeem_enrollment : Token → Text → Grant → Accounts → Outcome Enrollment × Accounts
  unfolding redeem_row
  redeem_enrollment presented name g s =
      if length name == 0 || ltb max_device_name_bytes (length name)
      then (denied device_name_required, s)
      else if presented == empty
      then (denied unauthorized, s)
      else redeem_row g (enrollment_by_hash (hash presented) s.enrollment_tokens) s

  unfoldable pub bot_token_for :
      Uuid → Grant → Option UserRow → Accounts → Outcome IssuedToken × Accounts
  unfolding access_row
  bot_token_for user g none s = (denied failed, s)
  bot_token_for user g (some u) s =
      if not u.is_bot
      then (denied not_a_bot, s)
      else if g.fails || is_some (access_by_hash (hash g.access) s.tables.access_tokens)
      then (denied failed, s)
      else (
        granted (record { plaintext = g.access; expires_at = 0 }),
        record s {
          tables = record s.tables {
            access_tokens = s.tables.access_tokens ++ access_row g user none ∷ [];
          };
        },
      )

  -- IssueBotToken.
  unfoldable pub issue_bot_token : Uuid → Grant → Accounts → Outcome IssuedToken × Accounts
  unfolding bot_token_for
  issue_bot_token user g s = bot_token_for user g (user_of user s.tables.users) s

-- The update of the device's row, with the payload in the same transaction.
unfoldable pub cut : Uuid → Time → Db → Db
cut d now db = record db {
  devices = revoke_device d now db.devices;
  notified = db.notified ++ d ∷ [];
}

-- RevokeDevice: whether it revoked a row.
unfoldable pub revoke : Uuid → Grant → Accounts → Outcome Bool × Accounts
unfolding cut
revoke d g s =
    if g.fails
    then (denied failed, s)
    else if severs d s.tables.devices
    then (granted true, record s { tables = cut d g.db_now s.tables })
    else (granted false, s)

abbrev pub owned_by : Uuid → Option DeviceRow → Bool
owned_by u none = false
owned_by u (some row) = row.user_id == u

-- RevokeOwnDevice: the row must be the user's.
unfoldable pub revoke_own : Uuid → Uuid → Grant → Accounts → Outcome Bool × Accounts
unfolding cut
revoke_own user d g s =
    if g.fails
    then (denied failed, s)
    else if severs d s.tables.devices && owned_by user (device_of d s.tables.devices)
    then (granted true, record s { tables = cut d g.db_now s.tables })
    else (granted false, s)
