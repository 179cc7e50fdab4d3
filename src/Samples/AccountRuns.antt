-- ===== src/Samples/AccountRuns.antt =====
-- An invitation redeemed, its device at the door, and its revocation, run. Tokens are their own hashes.
use catenary.Prelude.{
  some, if◌then◌else◌, ◌==◌, ℕ, ◌≤◌, ◌≡◌, refl, true, false, none, [], ◌∷◌, arith, is_some,
}
use catenary.Store.Tables.{revoke_device, severs, Token, device_of, user_of, by_hash}
use catenary.Store.Log.{Text, by_key, draw_seq, member_of, conversation_of}
use catenary.Store.Rotation.{rotate_refresh_proposing}
use catenary.Store.Accounts.{
  Accounts, Enrollment, Grant, granted, redeem_enrollment, authenticate, revoke, enrollment_by_hash,
  access_by_hash,
}
use catenary.Store.Accounts.Calls.{call, inviting, revoking, rotating, calls, is_granted}
use catenary.Store.Accounts.Once.{redeem-once}
use catenary.Store.Accounts.Severed.{revoke-severs, IsOther, IsOtherDevice}
use catenary.Store.Accounts.Door.{redeem-authenticate}
use catenary.Store.Offboard.{Estate, Offboarded, offboarded, deactivate_user}
use catenary.Store.Offboard.Locked.{IsNotCaller, IsNotEnrolled, deactivate_user-bars}
use catenary.Store.Reads.{ReadReceipt, received, mark_read}
use catenary.Store.Reads.Settled.{mark_read-settles}
use catenary.Store.Rooms.{direct_key_of}
use catenary.Store.Acts.{finding_direct, act, acts}
use catenary.Store.Marks.{apply_bump}
use catenary.Store.Acts.Rests.{rooms_with}
use catenary.Store.Acts.Log.{acts-one_direct}
use catenary.Store.Messages.{send}
use catenary.Store.Uploads.{postgres_uploads, place}
use catenary.Hub.Sessions.{find}
use catenary.Delivery.Severance.{hear, drop_heard, revoke-closes, recheck, revoke-recheck}
use catenary.Store.Fanout.Named.{has_owner}
use catenary.Samples.HubRuns.{hub_2, phone_1, hub_2-find}
use catenary.Samples.LogRuns.{log_0, log_1}
use catenary.Samples.StoreRuns.{db_0, request_1}

abbrev plain : Token → ℕ
plain t = t

abbrev accounts_0 : Accounts
accounts_0 = record {
  tables = db_0;
  enrollment_tokens =
      record {
        id = 1;
        user_id = 20;
        token_hash = 300;
        expires_at = 1000;
        redeemed_at = none;
        redeemed_by_device = none;
        superseded_at = none;
      }
      ∷ [];
}

abbrev grant_1 : Grant
grant_1 = record {
  row_id = 2;
  device_id = 11;
  refresh_id = 3;
  access_id = 4;
  token = 301;
  refresh = 302;
  access = 303;
  now = 500;
  db_now = 500;
  fails = false;
}

abbrev tablet : Text
tablet = 116 ∷ []

abbrev enrollment_1 : Enrollment
enrollment_1 = record {
  user_id = 20;
  device_id = 11;
  access = record { plaintext = 303; expires_at = 900000000500 };
  refresh = record { plaintext = 302; expires_at = 5184000000000500 };
}

redeem_run : (redeem_enrollment plain 300 tablet grant_1 accounts_0).0 ≡ granted enrollment_1
unfolding redeem_enrollment enrollment_by_hash user_of device_of by_hash access_by_hash
redeem_run = refl

redeem-once_example :
    is_granted
      (redeem_enrollment plain 300 tablet grant_1 (
        calls plain
          (inviting 20 grant_1 ∷ [])
          (redeem_enrollment plain 300 tablet grant_1 accounts_0).1)).0
    ≡ false
redeem-once_example =
    redeem-once plain 300 tablet tablet grant_1 grant_1 accounts_0 enrollment_1
      (inviting 20 grant_1 ∷ []) redeem_run

redeem-authenticate_example :
    authenticate plain 303 600 false
      (redeem_enrollment plain 300 tablet grant_1 accounts_0).1.tables
    ≡ granted (record { user_id = 20; device_id = 11; is_bot = false })
redeem-authenticate_example =
    redeem-authenticate plain grant_1 300 tablet accounts_0 enrollment_1 600 redeem_run refl
      (omega arith)

device_there : is_some (device_of 10 accounts_0.tables.devices) ≡ true
unfolding device_of
device_there = refl

revoke-severs_example :
    IsOther plain 10 (
      authenticate plain 303 600 false
        (calls plain (rotating request_1 ∷ []) (revoke 10 grant_1 accounts_0).1).tables)
    × IsOtherDevice plain 10
        (rotate_refresh_proposing plain request_1
          (calls plain (rotating request_1 ∷ []) (revoke 10 grant_1 accounts_0).1).tables).0
revoke-severs_example =
    revoke-severs plain 10 grant_1 accounts_0 (rotating request_1 ∷ []) 303 600 request_1 refl refl
      device_there

abbrev receipt_1 : ReadReceipt
receipt_1 = record { conversation_id = 1; user_id = 21; up_to_seq = 1; advanced = true }

receipt_run : (mark_read 1 21 5 false log_1).0 ≡ received receipt_1
unfolding mark_read member_of act send by_key conversation_of postgres_uploads place draw_seq
    apply_bump
receipt_run = refl

mark_read-settles_example :
    mark_read 1 21 3 false (mark_read 1 21 5 false log_1).1
    ≡ (received (record receipt_1 { advanced = false }), (mark_read 1 21 5 false log_1).1)
mark_read-settles_example =
    mark_read-settles 1 21 5 log_1 3 (omega arith) false receipt_1 receipt_run (omega arith)

no_room_yet : rooms_with (direct_key_of 20 21) log_0.conversations ≤ 1
unfolding rooms_with
no_room_yet = omega arith

-- Both look for the other.
acts-one_direct_example :
    let db =
      acts
        (record { max_message_bytes = 4; max_attachments = 2 })
        postgres_uploads
        (finding_direct 20 121 70 false ∷ finding_direct 21 120 71 false ∷ [])
        log_0 in
    (rooms_with (direct_key_of 20 21) db.conversations ≤ 1)
    × (rooms_with (direct_key_of 21 20) db.conversations ≤ 1)
acts-one_direct_example =
    acts-one_direct (record { max_message_bytes = 4; max_attachments = 2 }) postgres_uploads
      (finding_direct 20 121 70 false ∷ finding_direct 21 120 71 false ∷ []) log_0 20 21 no_room_yet

revoked_run : (revoke 10 grant_1 accounts_0).0 ≡ granted true
unfolding revoke severs
revoked_run = refl

revoke-closes_example :
    find 1
      (hear
        (drop_heard accounts_0.tables.notified (revoke 10 grant_1 accounts_0).1.tables.notified)
        hub_2).sessions
    ≡ (if phone_1.device_id == 10 then none else some phone_1)
revoke-closes_example =
    revoke-closes 10 grant_1 accounts_0 hub_2 1 phone_1 revoked_run (refl, (refl, tt)) hub_2-find

owner_there :
    has_owner 10 (calls plain (revoking 10 grant_1 ∷ []) (revoke 10 grant_1 accounts_0).1).tables
    ≡ true
unfolding revoke severs device_of user_of call revoke_device
owner_there = refl

revoke-recheck_example :
    find 1
      (recheck
        (calls plain (revoking 10 grant_1 ∷ []) (revoke 10 grant_1 accounts_0).1).tables
        hub_2.sessions
        hub_2).sessions
    ≡ none
revoke-recheck_example =
    revoke-recheck plain 10 grant_1 accounts_0 (revoking 10 grant_1 ∷ []) 1 hub_2.sessions phone_1
      hub_2 refl device_there owner_there (refl, (refl, tt)) (refl, (refl, tt)) hub_2-find refl

abbrev estate_0 : Estate
estate_0 = record { accounts = accounts_0; log = log_1; revoked_users = [] }

abbrev offboarded_1 : Offboarded
offboarded_1 = record {
  user_id = 20;
  deactivated = true;
  revoked = record { refresh_tokens = 1; access_tokens = 0; devices = 1; enrollment_tokens = 1 };
}

offboard_run : (deactivate_user 20 700 80 false estate_0).0 ≡ offboarded offboarded_1
unfolding deactivate_user user_of apply_bump act send by_key conversation_of member_of
    postgres_uploads place draw_seq
offboard_run = refl

deactivate_user-bars_example :
    let s =
      calls plain
        (inviting 20 grant_1 ∷ [])
        (deactivate_user 20 700 80 false estate_0).1.accounts in
    IsNotCaller 20 (authenticate plain 301 800 false s.tables)
    × IsNotEnrolled 20 (redeem_enrollment plain 301 tablet grant_1 s).0
deactivate_user-bars_example =
    deactivate_user-bars 20 plain 700 80 false estate_0 offboarded_1 (inviting 20 grant_1 ∷ []) 301
      800 tablet grant_1 offboard_run
