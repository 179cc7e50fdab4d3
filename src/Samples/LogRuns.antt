-- ===== src/Samples/LogRuns.antt =====
-- Two people in a conversation, their sends, and the sync of one of them, run.
use catenary.Prelude.{
  ℕ, ◌≤◌, ◌<◌, ◌≡◌, refl, true, false, none, some, [], ◌∷◌, arith, All, member, exists, first,
  sort_by, ◌==◌,
}
use catenary.Prelude.Int.{pos}
use catenary.Client.State.{Device, LogEntry}
use catenary.Client.Apply.{apply_page}
use catenary.Client.CatchUp.{catch_up, caught_up}
use catenary.Client.CatchUp.Moves.{IsGood}
use catenary.Store.Log.{
  LogDb, last_seq_of, UploadRow, MessageRow, image, group, by_key, conversation_of, member_of,
  draw_seq,
}
use catenary.Store.Uploads.{postgres_uploads, place}
use catenary.Store.Messages.{NewMessage, Draw, Limits, Sent, sent, refused, not_a_member, send}
use catenary.Store.Messages.Numbers.{IsLog, occurrences}
use catenary.Store.Acts.{Act, sending, act, acts}
use catenary.Store.Acts.Log.{act-IsLog}
use catenary.Store.Acts.Retry.{send-retry}
use catenary.Store.Sync.{sync}
use catenary.Store.Sync.Private.{IsReadable, sync-IsReadable}
use catenary.Store.Sync.Page.{shows, sync-brings, sync-moves}
use catenary.Delivery.{Rendering, Visit, rounds, wire_page}
use catenary.Delivery.Whole.{catch_up_delivers, catch_up_settles, requests}
use catenary.Samples.CatchUpRuns.{phone-IsCorrect}
use catenary.Samples.ClientData.{device_1, store_1}

abbrev limits : Limits
limits = record { max_message_bytes = 4; max_attachments = 2 }

abbrev picture : UploadRow
picture = record {
  id = 60;
  uploader = 20;
  kind = image;
  storage_key = some 61;
  bytes = 9;
  width = some 3;
  height = some 2;
  filename = some (97 ∷ []);
  duration_ms = none;
  peaks = none;
  link_url = none;
  consumed_at = none;
}

abbrev pub log_0 : LogDb
log_0 = record {
  messages = [];
  conversations =
      record {
        id = 1;
        kind = group;
        name = none;
        direct_key = none;
        create_key = none;
        last_seq = 0;
        metadata_log_seq = 2;
      }
      ∷ [];
  members =
      record { conversation_id = 1; user_id = 20; read_seq = 0; metadata_log_seq = 2 }
      ∷ record { conversation_id = 1; user_id = 21; read_seq = 0; metadata_log_seq = 2 }
      ∷ [];
  people =
      record {
        id = 20;
        handle = 120;
        is_bot = false;
        display_name = 97 ∷ [];
        is_deactivated = false;
        metadata_log_seq = 1;
      }
      ∷ record {
        id = 21;
        handle = 121;
        is_bot = false;
        display_name = 98 ∷ [];
        is_deactivated = false;
        metadata_log_seq = 1;
      }
      ∷ [];
  uploads = picture ∷ [];
  attachments = [];
  log_counter = 2;
  notified = [];
}

abbrev hello : NewMessage
hello = record {
  conversation_id = 1;
  author_id = 20;
  client_id = 700;
  sender_device_id = some 10;
  reply_to = none;
  text = some (104 ∷ 105 ∷ []);
  attachments = record { kind = image; upload_id = 60 } ∷ [];
}

abbrev reply : NewMessage
reply = record hello { author_id = 21; client_id = 701; reply_to = some 501; attachments = [] }

abbrev draw_of : ℕ → Draw
draw_of id = record { new_id = id; at = 1000; fails = λ p. false }

abbrev hello_sending : Act
hello_sending = sending hello (draw_of 501) log_0

abbrev reply_sending : Act
reply_sending = sending reply (draw_of 502) log_0

abbrev pub log_1 : LogDb
log_1 = acts limits postgres_uploads (hello_sending ∷ []) log_0

abbrev hello_sent : Sent
hello_sent = record {
  id = 501;
  conversation_id = 1;
  seq = 1;
  log_seq = 3;
  at = 1000;
  duplicate = false;
}

hello_run : (send limits postgres_uploads hello (draw_of 501) log_0 log_0).0 ≡ sent hello_sent
unfolding act send by_key conversation_of member_of postgres_uploads place
hello_run = refl

log_0-IsLog : IsLog log_0
unfolding last_seq_of occurrences
log_0-IsLog = record {
  ordered = omega arith;
  dense = λ i. ground arith;
  keyed = λ a k. omega arith;
}

act-IsLog_example : IsLog (act limits postgres_uploads hello_sending log_0)
act-IsLog_example = act-IsLog limits postgres_uploads hello_sending log_0 log_0-IsLog

send-retry_example :
    let later = acts limits postgres_uploads (reply_sending ∷ []) log_1 in
    send limits postgres_uploads hello (draw_of 900) later later
    ≡ (sent (record hello_sent { duplicate = true }), later)
unfolding act send
send-retry_example =
    send-retry limits postgres_uploads hello (draw_of 501) hello_sent (draw_of 900) log_0 []
      (reply_sending ∷ []) hello_run refl

-- Someone who is not in the conversation.
stranger_run :
    (send limits postgres_uploads (record hello { author_id = 22 }) (draw_of 501) log_0 log_0).0
    ≡ refused not_a_member
unfolding send by_key conversation_of member_of
stranger_run = refl

log_1-IsLog : IsLog log_1
log_1-IsLog = act-IsLog limits postgres_uploads hello_sending log_0 log_0-IsLog

sync-IsReadable_example :
    All (IsReadable log_1 21) (sync 21 0 (pos 10) log_1).messages
    × All (IsReadable log_1 21) (sync 21 0 (pos 10) log_1).reply_sources
sync-IsReadable_example = sync-IsReadable 21 0 (pos 10) log_1

log_1-shows : shows 21 log_1 (501, 3) ≡ true
unfolding act send by_key conversation_of member_of postgres_uploads place
log_1-shows = refl

page_reaches : 3 ≤ (sync 21 0 (pos 10) log_1).high_water
unfolding sync first sort_by act send by_key conversation_of member_of postgres_uploads place
page_reaches = omega arith

sync-brings_example :
    exists (λ (m : MessageRow). m.id == 501) (sync 21 0 (pos 10) log_1).messages ≡ true
sync-brings_example =
    sync-brings 21 0 (pos 10) log_1 log_1-IsLog (501, 3) log_1-shows (omega arith) page_reaches

sync-moves_example :
    ((sync 21 0 (pos 10) log_1).has_more ≡ true
      → (0 < (sync 21 0 (pos 10) log_1).high_water)
        × ((sync 21 0 (pos 10) log_1).high_water ≤ log_1.log_counter))
    × ((sync 21 0 (pos 10) log_1).has_more ≡ false
        → (sync 21 0 (pos 10) log_1).high_water ≡ log_1.log_counter)
sync-moves_example = sync-moves 21 0 (pos 10) log_1 log_1-IsLog

abbrev plain : Rendering
plain = record {
  message_content = λ page m. 0;
  conversation_content = λ v. v.last_seq;
  user_content = λ p. 0;
}

abbrev fresh : Device
fresh = record device_1 {
  journal = record store_1 { cursor = 0; has_cursor = false; messages = []; counted = [] };
}

abbrev hello_entry : LogEntry
hello_entry = record { id = 501; conversation_id = 1; seq = 1; log_seq = 3 }

fresh-IsGood : IsGood hello_entry fresh
fresh-IsGood = record { correct = phone-IsCorrect; seated = λ h. refl; covered = refl }

-- One request, with a reply sent just before it.
abbrev visit_1 : Visit plain
visit_1 = record {
  acts = reply_sending ∷ [];
  before = [];
  between = [];
  in_flight = [];
  landed = [];
  arrives = true;
}

visits_run :
    (catch_up (rounds plain limits postgres_uploads 21 (pos 10) (visit_1 ∷ []) log_1) fresh).0
    ≡ caught_up
unfolding catch_up apply_page wire_page sync first sort_by act send by_key conversation_of member_of
    postgres_uploads place draw_seq
visits_run = refl

catch_up_delivers_example :
    member 501
      (catch_up
        (rounds plain limits postgres_uploads 21 (pos 10) (visit_1 ∷ []) log_1)
        fresh).1.journal.messages
    ≡ true
catch_up_delivers_example =
    catch_up_delivers plain 21 (pos 10) hello_entry limits postgres_uploads (visit_1 ∷ []) log_1
      fresh log_1-IsLog log_1-shows fresh-IsGood ((tt, tt, tt), tt) visits_run

catch_up_settles_example :
    ((catch_up (requests plain 21 (pos 1) log_1 log_1-IsLog) fresh).0 ≡ caught_up)
    × (member 501 (catch_up (requests plain 21 (pos 1) log_1 log_1-IsLog) fresh).1.journal.messages
        ≡ true)
catch_up_settles_example =
    catch_up_settles plain 21 (pos 1) log_1 log_1-IsLog fresh hello_entry refl log_1-shows
      fresh-IsGood
