-- ===== src/Samples/FanoutRuns.antt =====
-- The read behind the fan-out of a conversation's first message, run.
use catenary.Prelude.{◌≡◌, refl, true, ◌&&◌, ◌==◌, none, some, [], ◌∷◌, has, map, is_some}
use catenary.Store.Tables.{Uuid}
use catenary.Store.Log.{MessageRow, LogDb, conversation_of, member_of}
use catenary.Store.Sync.{ConversationView}
use catenary.Store.Fanout.{MemberRead, FanoutRead, by_seq, fanout_of, message_for_fanout}
use catenary.Store.Fanout.Named.{message_for_fanout-names}
use catenary.Samples.LogRuns.{log_0}

abbrev hello_row : MessageRow
hello_row = record {
  id = 501;
  conversation_id = 1;
  author_id = 20;
  seq = 1;
  log_seq = 3;
  at = 1000;
  text = some (104 ∷ []);
  client_id = some 700;
  sender_device_id = none;
  reply_to = none;
}

abbrev log_hello : LogDb
log_hello = record log_0 { messages = hello_row ∷ []; log_counter = 3 }

abbrev fanned : FanoutRead
fanned = fanout_of log_hello hello_row

room_there : is_some (conversation_of 1 log_hello.conversations) ≡ true
unfolding conversation_of
room_there = refl

fanned_run : message_for_fanout 1 1 log_hello ≡ some fanned
unfolding message_for_fanout by_seq
fanned_run = refl

message_for_fanout-names_example :
    (has 21 (map (λ (m : MemberRead). m.user_id) fanned.members)
      ≡ is_some (member_of 1 21 log_hello.members))
    × (has 21 (map (λ (x : Uuid × ConversationView). x.0) fanned.conversations)
        ≡ (1 == 1 && is_some (member_of 1 21 log_hello.members)))
message_for_fanout-names_example =
    message_for_fanout-names 1 1 21 log_hello fanned room_there fanned_run
