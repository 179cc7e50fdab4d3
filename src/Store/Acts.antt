-- ===== src/Store/Acts.antt =====
-- internal/store: the calls that write the tables of the log, in any order: SendMessage, MarkRead,
-- FindOrCreateDirect, FindOrCreateSelf and CreateGroup.
pub mod Rests
pub mod Rooms
pub mod Log
pub mod Retry
use catenary.Prelude.{ℕ, Bool, List, [], ◌∷◌}
use catenary.Store.Tables.{Uuid}
use catenary.Store.Log.{LogDb}
use catenary.Store.Uploads.{Resolver}
use catenary.Store.Messages.{NewMessage, Draw, Limits, send}
use catenary.Store.Reads.{mark_read}
use catenary.Store.Rooms.{NewGroup, find_or_create_direct, find_or_create_self, create_group}

pub data Act : Type 0 where
  sending : NewMessage → Draw → LogDb → Act  -- the tables are those that the checks saw
  reading : Uuid → Uuid → ℕ → Bool → Act
  finding_direct : Uuid → Uuid → Uuid → Bool → Act
  finding_self : Uuid → Uuid → Bool → Act
  grouping : NewGroup → Uuid → Bool → Act

module _ (limits : Limits) (resolver : Resolver) where
  unfoldable pub act : Act → LogDb → LogDb
  act (sending m q seen) db = (send limits resolver m q seen db).1
  act (reading conv user up_to fails) db = (mark_read conv user up_to fails db).1
  act (finding_direct viewer handle i fails) db = (find_or_create_direct viewer handle i fails db).1
  act (finding_self viewer i fails) db = (find_or_create_self viewer i fails db).1
  act (grouping g i fails) db = (create_group g i fails db).1

  -- The calls one after the other.
  abbrev pub acts : List Act → LogDb → LogDb
  acts [] db = db
  acts (a ∷ as') db = acts as' (act a db)
