-- ===== src/Samples/HubRuns.antt =====
-- The hub, run.
use catenary.Prelude.{
  ◌+◌, ◌≡◌, ◌≤◌, Option, true, refl, false, none, some, [], ◌∷◌, arith, leb, length, lookup, insert,
  has, exists, ◌==◌, List, IsDistinct, if◌then◌else◌,
}
use catenary.Hub.Sessions.{
  Session, Hub, find, outbox_bound, server_resync, server_message, attach, enqueue_locked, put,
}
use catenary.Hub.Fanout.{
  budget_locked, FanoutMessage, ReadMessage, fan_out, on_read_notify, loaded, head_failed,
  on_notify,
}
use catenary.Hub.Fanout.Members.{offered, fan_out_complete}
use catenary.Hub.Fanout.Budget.{notifications, notifications-bound}
use catenary.Store.Reads.{received}
use catenary.Hub.Typing.{Entry, typing_list, ClientFrame, client_read, handle}
use catenary.Hub.Typing.Who.{typing_list-names}
use catenary.Hub.Steps.{new_hub, fresh, next, attached, notified, handled}
use catenary.Hub.Steps.Life.{IsSound, Reachable-IsSound}

abbrev pub phone_1 : Session
phone_1 = record {
  id = 1;
  user_id = 20;
  device_id = 10;
  out = server_resync 4 ∷ [];
  sent = [];
  dead = false;
}

abbrev phone_2 : Session
phone_2 = record { id = 2; user_id = 21; device_id = 11; out = []; sent = []; dead = false }

abbrev pub hub_2 : Hub
hub_2 = record {
  sessions = phone_1 ∷ phone_2 ∷ [];
  removed = [];
  count = 2;
  closing = false;
  drained = 0;
  closes = [];
}

pub hub_2-find : find 1 hub_2.sessions ≡ some phone_1
unfolding find
hub_2-find = refl

-- The first message of a conversation between the two users.
abbrev hello : FanoutMessage
hello = record {
  conversation = 7;
  seq = 1;
  members = record { user_id = 20; read_seq = 0 } ∷ record { user_id = 21; read_seq = 1 } ∷ [];
  conversations = (20, 70) ∷ (21, 71) ∷ [];
  users = 20 ∷ 21 ∷ [];
  read_by = 0;
}

fan_out_complete_example :
    let frames = offered hello 20 hello.members in
    find 1 (fan_out hello hello.members hub_2).sessions ≡ (
      if leb (1 + length frames) outbox_bound
      then some (record phone_1 { out = server_resync 4 ∷ frames })
      else none)
unfolding find
fan_out_complete_example =
    fan_out_complete hello 1 phone_1 hub_2 (refl, (refl, tt)) refl (omega arith)

-- Two notifications of one batch, the second of which could not be read.
abbrev receipts : List (Option (List ReadMessage))
receipts = some (record { conversation = 7; seq = 1; author_id = 20; read_by = 1 } ∷ []) ∷ none ∷ []

abbrev phone_after : Session
phone_after = record phone_1 { out = server_resync 4 ∷ server_message 7 1 20 0 1 ∷ [] }

receipts-find :
    find 1 (notifications 5 receipts (record { batch = some 4; spent = [] }, hub_2)).1.sessions
    ≡ some phone_after
unfolding on_read_notify find lookup budget_locked enqueue_locked put
receipts-find = refl

notifications-bound_example : 2 ≤ 1 + 64
notifications-bound_example =
    notifications-bound 5 receipts (record { batch = some 4; spent = [] }) hub_2 1 phone_1
      phone_after refl (refl, (refl, tt)) hub_2-find receipts-find

abbrev read_hello : ClientFrame
read_hello =
    client_read
      (received (record { conversation_id = 7; user_id = 20; up_to_seq = 1; advanced = true }))
      (some (20 ∷ 21 ∷ []))

Reachable-IsSound_example :
    IsSound
      (handle 1 20 read_hello (record {
        hub = on_notify (loaded hello) head_failed (attach 1 20 10 new_hub);
        typing = [];
      })).hub
Reachable-IsSound_example = Reachable-IsSound (
    next
      (next (next fresh (attached 1 20 10 new_hub refl))
        (notified (loaded hello) head_failed (attach 1 20 10 new_hub)))
      (handled 1 20 read_hello [] (on_notify (loaded hello) head_failed (attach 1 20 10 new_hub))))

-- Two sessions of one user, and one of another.
abbrev typing_2 : List Entry
typing_2 =
    record { session = 1; user_id = 20; at = 9 }
    ∷ record { session = 2; user_id = 21; at = 5 }
    ∷ record { session = 3; user_id = 20; at = 4 }
    ∷ []

typing_run : typing_list typing_2 ≡ 20 ∷ 21 ∷ []
unfolding typing_list lookup insert
typing_run = refl

typing_list-names_example :
    IsDistinct (typing_list typing_2)
    × (has 20 (typing_list typing_2) ≡ exists (λ (e : Entry). e.user_id == 20) typing_2)
typing_list-names_example = typing_list-names typing_2 20
