-- ===== src/Delivery.antt =====
-- The send path, /sync and the reference client together: internal/store/messages.go and sync.go,
-- internal/wireview/sync.go, and the catch-up of internal/client/client.go. How the text and the rest of
-- a record become the content that the client keeps is a parameter, as the client only stores it.
pub mod Whole
pub mod Severance
use catenary.Prelude.{ℕ, Bool, Option, none, some, List, [], ◌∷◌, if◌then◌else◌, map}
use catenary.Prelude.Int.{ℤ}
use catenary.Client.State.{Message, Conversation, User, SyncResponse}
use catenary.Client.CatchUp.{Event, Round}
use catenary.Store.Tables.{Uuid}
use catenary.Store.Log.{MessageRow, PersonRow, LogDb}
use catenary.Store.Uploads.{Resolver}
use catenary.Store.Messages.{Limits}
use catenary.Store.Acts.{Act, acts}
use catenary.Store.Sync.{ConversationView, SyncPage, sync}

pub record Rendering : Type 0 where
  pub message_content : SyncPage → MessageRow → ℕ
  pub conversation_content : ConversationView → ℕ
  pub user_content : PersonRow → ℕ

module _ (r : Rendering) where
  unfoldable pub wire_message : SyncPage → MessageRow → Message
  wire_message page m = record {
    id = m.id;
    conversation_id = m.conversation_id;
    author_id = m.author_id;
    seq = m.seq;
    log_seq = m.log_seq;
    content = r.message_content page m;
  }

  unfoldable pub wire_conversation : ConversationView → Conversation
  wire_conversation v = record { id = v.id; content = r.conversation_content v }

  unfoldable pub wire_user : PersonRow → User
  wire_user p = record { id = p.id; content = r.user_content p }

  -- wireview.Sync.
  unfoldable pub wire_page : SyncPage → SyncResponse
  unfolding wire_message wire_conversation wire_user
  wire_page page = record {
    log_seq = page.high_water;
    messages = map (wire_message page) page.messages;
    conversations = map wire_conversation page.conversations;
    users = map wire_user page.users;
    has_more = page.has_more;
  }

  -- One request of a catch-up: what others wrote since the one before, what else happens on the device, and
  -- whether the answer arrives.
  pub record Visit : Type 0 where
    pub acts : List Act
    pub before : List Event
    pub between : List Event
    pub in_flight : List Event
    pub landed : List Event
    pub arrives : Bool

  abbrev pub visit_round : Uuid → ℤ → LogDb → Visit → Round
  visit_round viewer limit db v = record {
    before = v.before;
    between = v.between;
    in_flight = v.in_flight;
    serve = λ after. if v.arrives then some (wire_page (sync viewer after limit db)) else none;
    landed = v.landed;
  }

  -- The rounds of a catch-up over the tables as they grow.
  abbrev pub rounds : Limits → Resolver → Uuid → ℤ → List Visit → LogDb → List Round
  rounds limits resolver viewer limit [] db = []
  rounds limits resolver viewer limit (v ∷ vs) db =
      let db' = acts limits resolver v.acts db in
      visit_round viewer limit db' v ∷ rounds limits resolver viewer limit vs db'
