-- ===== src/Store/Acts/Rooms.antt =====
-- internal/store/metadata.go: what a new room leaves of the log.
use catenary.Prelude.{
  ◌≡◌, refl, inl, inr, Bool, not, ◌||◌, Option, none, some, List, ◌==◌, arith, ltb, is_some, length,
  Option-cases, split,
}
use catenary.Store.Tables.{Uuid}
use catenary.Store.Log.{ConversationRow, PersonRow, LogDb, conversation_of}
use catenary.Store.Marks.{person_of}
use catenary.Store.Sync.{ConversationView}
use catenary.Store.Rooms.{
  RoomAnswer, NewGroup, add_room, create_room, commit_room, existing_room, found_room,
  find_or_create, direct_with, self_of, marks_of, by_handle, find_or_create_direct,
  find_or_create_self, create_group, create_with, create_by, replay_group, group_members, replay_of,
  create_key_of, is_group_request, read_room, by_direct_key, by_kind, refusal_of,
}
use catenary.Store.Acts.Rests.{
  Rests, Rests-refl, Rests-trans, IfRests, append-rooms_with, IsFree, key-IsFree, append-member_of,
  append-last_seq_of, apply_bump-IfRests,
}

commit_room-Rests :
    (v : Option ConversationView) (db mid : LogDb) (o : Option LogDb)
    → Rests db mid
    → IfRests mid o
    → Rests db (commit_room v o db).1
commit_room-Rests none db mid o first then' = Rests-refl db
commit_room-Rests (some v) db mid none first then' = Rests-refl db
commit_room-Rests (some v) db mid (some d) first then' = Rests-trans db mid d first then'

found_room-Rests : (v : Option ConversationView) (db : LogDb) → Rests db (found_room v db).1
found_room-Rests none db = Rests-refl db
found_room-Rests (some v) db = Rests-refl db

existing_room-Rests :
    (viewer : Uuid) (o : Option ConversationRow) (db : LogDb)
    → Rests db (existing_room viewer o db).1
existing_room-Rests viewer none db = Rests-refl db
existing_room-Rests viewer (some c) db = found_room-Rests (read_room db c.id viewer) db

add_room-Rests :
    (c : ConversationRow) (us : List Uuid) (db : LogDb)
    → c.last_seq ≡ 0
    → IsFree c db.conversations
    → Rests db (add_room c us db)
unfolding add_room
add_room-Rests c us db h free = record {
  messages = refl;
  last_seqs = λ i. append-last_seq_of i db.conversations c h;
  counter = omega arith;
  stay = λ x u h. append-member_of x u db.members _ h;
  one_room = λ k h. rw (append-rooms_with k db.conversations c) (free k h);
}

create_room-Rests :
    (c : ConversationRow) (viewer : Uuid) (us : List Uuid) (db : LogDb)
    → c.last_seq ≡ 0
    → IsFree c db.conversations
    → Rests db (create_room c viewer us db).1
unfolding create_room
create_room-Rests c viewer us db h free =
    commit_room-Rests (read_room (add_room c us db) c.id viewer) db (add_room c us db) _
      (add_room-Rests c us db h free) (apply_bump-IfRests (marks_of c.id us) (add_room c us db))

abbrev RoomRests : LogDb → RoomAnswer × LogDb → Type 0
RoomRests db r = Rests db r.1

find_or_create-Rests :
    (c : ConversationRow) (key : List Uuid) (viewer : Uuid) (us : List Uuid) (fails : Bool)
    (db : LogDb)
    → c.last_seq ≡ 0
    → c.direct_key ≡ some key
    → Rests db (find_or_create c key viewer us fails db).1
unfolding find_or_create
find_or_create-Rests c key viewer us fails db h own =
    split (RoomRests db) fails (λ _. Rests-refl db)
      (λ _.
        split (RoomRests db)
          (is_some (conversation_of c.id db.conversations)
            || is_some (by_direct_key key db.conversations))
          (λ _. existing_room-Rests viewer (by_kind c.kind (by_direct_key key db.conversations)) db)
          (λ new.
            create_room-Rests c viewer us db h
              (key-IsFree c key db.conversations own (ground (arith, new)))))

module _ (viewer i : Uuid) (fails : Bool) (db : LogDb) where
  direct_with-Rests : (o : Option PersonRow) → Rests db (direct_with viewer i fails o db).1
  direct_with-Rests none = Rests-refl db
  direct_with-Rests (some p) =
      split (RoomRests db) p.is_deactivated (λ _. Rests-refl db)
        (λ _.
          split (RoomRests db) (p.id == viewer) (λ _. Rests-refl db)
            (λ _. find_or_create-Rests _ _ viewer _ fails db refl refl))

  pub find_or_create_direct-Rests :
      (handle : Uuid) → Rests db (find_or_create_direct viewer handle i fails db).1
  unfolding find_or_create_direct
  find_or_create_direct-Rests handle = direct_with-Rests (by_handle handle db.people)

  self_of-Rests : (o : Option PersonRow) → Rests db (self_of viewer i fails o db).1
  self_of-Rests none = Rests-refl db
  self_of-Rests (some p) =
      split (RoomRests db) p.is_bot (λ _. Rests-refl db)
        (λ _. find_or_create-Rests _ _ viewer _ fails db refl refl)

  pub find_or_create_self-Rests : Rests db (find_or_create_self viewer i fails db).1
  unfolding find_or_create_self
  find_or_create_self-Rests = self_of-Rests (person_of viewer db.people)

module _ (g : NewGroup) (i : Uuid) (fails : Bool) (db : LogDb) where
  create_with-Rests : (named : List PersonRow) → Rests db (create_with g i fails named db).1
  unfolding create_with
  create_with-Rests named =
      split (RoomRests db) (ltb (length named) (length g.handles)) (λ _. Rests-refl db)
        (λ _. elim (Option-cases (refusal_of g.creator none named)) [
          | inr (e, h) ↦ rw h (Rests-refl db)
          | inl h ↦ rw h (
              split (RoomRests db) (fails || is_some (conversation_of i db.conversations))
                (λ _. Rests-refl db)
                (λ _.
                  create_room-Rests _ g.creator (group_members g named) db refl
                    (λ k h. omega (arith, h))))
        ])

  create_by-Rests : (o : Option PersonRow) → Rests db (create_by g i fails o db).1
  create_by-Rests none = Rests-refl db
  create_by-Rests (some p) =
      split (RoomRests db) p.is_bot (λ _. Rests-refl db) (λ _. create_with-Rests _)

  replay_group-Rests : (o : Option ConversationRow) → Rests db (replay_group g i fails o db).1
  replay_group-Rests (some c) = found_room-Rests (read_room db c.id g.creator) db
  replay_group-Rests none =
      split (RoomRests db) (not (is_group_request (length g.name) g.handles)) (λ _. Rests-refl db)
        (λ _. create_by-Rests (person_of g.creator db.people))

  pub create_group-Rests : Rests db (create_group g i fails db).1
  unfolding create_group
  create_group-Rests = replay_group-Rests (replay_of (create_key_of g) db.conversations)
