-- ===== src/Store/Acts/Rests.antt =====
-- internal/store/readstate.go and metadata.go: what a receipt leaves of the log, and what a mark does.
use catenary.Prelude.{
  ℕ, suc, ◌+◌, ◌≤◌, ◌≡◌, refl, ap, ◌∙◌, inl, inr, Bool, true, false, not, ◌||◌, Option, none, some,
  List, [], ◌∷◌, ◌++◌, arith, ltb, is_some, if◌then◌else◌, Bool-cases, ==→eq, split,
}
use catenary.Store.Tables.{Uuid}
use catenary.Store.Log.{ConversationRow, MemberRow, LogDb, conversation_of, member_of, last_seq_of}
use catenary.Store.Marks.{
  MetadataBump, apply_bump, is_nothing, has_conversations, has_members, has_people, mark_people,
  mark_conversations, mark_members,
}
use catenary.Store.Rooms.{is_same_key, holds_key, by_direct_key}
use catenary.Store.Reads.{
  mark_read, read_as, read_in, settle_read, announce, commit_read, set_read_seq, ReadAnswer,
  ReadReceipt,
}

-- How many conversations have this direct key.
unfoldable pub rooms_with : List Uuid → List ConversationRow → ℕ
rooms_with k [] = 0
rooms_with k (c ∷ cs) = (if holds_key c.direct_key k then 1 else 0) + rooms_with k cs

-- No message is written, no ordinal moves, the counter is not behind, no member is lost, and no key gets
-- a second room.
pub record Rests (db db' : LogDb) : Type 0 where
  pub messages : db'.messages ≡ db.messages
  pub last_seqs : (i : Uuid) → last_seq_of i db'.conversations ≡ last_seq_of i db.conversations
  pub counter : db.log_counter ≤ db'.log_counter
  pub stay :
      (c u : Uuid)
      → is_some (member_of c u db.members) ≡ true
      → is_some (member_of c u db'.members) ≡ true
  pub one_room :
      (k : List Uuid) → rooms_with k db.conversations ≤ 1 → rooms_with k db'.conversations ≤ 1

pub Rests-refl : (db : LogDb) → Rests db db
Rests-refl db = record {
  messages = refl;
  last_seqs = λ i. refl;
  counter = omega arith;
  stay = λ c u h. h;
  one_room = λ k h. h;
}

pub Rests-trans : (a b c : LogDb) → Rests a b → Rests b c → Rests a c
Rests-trans a b c ab bc = record {
  messages = bc.messages ∙ ab.messages;
  last_seqs = λ i. bc.last_seqs i ∙ ab.last_seqs i;
  counter = omega (arith, ab.counter, bc.counter);
  stay = λ x u h. bc.stay x u (ab.stay x u h);
  one_room = λ k h. bc.one_room k (ab.one_room k h);
}

-- Of a transaction that may roll back.
abbrev pub IfRests : LogDb → Option LogDb → Type 0
IfRests db none = Unit
IfRests db (some db') = Rests db db'

mark_conversations-last_seq_of :
    (is : List Uuid) (v i : ℕ) (cs : List ConversationRow)
    → last_seq_of i (mark_conversations is v cs) ≡ last_seq_of i cs
unfolding mark_conversations last_seq_of
mark_conversations-last_seq_of is v i [] = refl
mark_conversations-last_seq_of is v i (c ∷ cs) =
    ground (arith, mark_conversations-last_seq_of is v i cs)

mark_conversations-rooms_with :
    (is : List Uuid) (v : ℕ) (k : List Uuid) (cs : List ConversationRow)
    → rooms_with k (mark_conversations is v cs) ≡ rooms_with k cs
unfolding mark_conversations rooms_with
mark_conversations-rooms_with is v k [] = refl
mark_conversations-rooms_with is v k (c ∷ cs) =
    ground (arith, mark_conversations-rooms_with is v k cs)

pub append-rooms_with :
    (k : List Uuid) (cs : List ConversationRow) (c : ConversationRow)
    → rooms_with k (cs ++ c ∷ []) ≡ rooms_with k cs + (if holds_key c.direct_key k then 1 else 0)
unfolding rooms_with
append-rooms_with k [] c = omega arith
append-rooms_with k (x ∷ cs) c = ground (arith, append-rooms_with k cs c)

by_direct_key_none :
    (k : List Uuid) (cs : List ConversationRow)
    → is_some (by_direct_key k cs) ≡ false
    → rooms_with k cs ≡ 0
unfolding by_direct_key rooms_with
by_direct_key_none k [] h = refl
by_direct_key_none k (c ∷ cs) h = ground (arith, by_direct_key_none k cs)

is_same_key→eq : (xs ys : List Uuid) → is_same_key xs ys ≡ true → xs ≡ ys
is_same_key→eq [] [] h = refl
is_same_key→eq [] (y ∷ ys) h = absurd (ground (arith, h))
is_same_key→eq (x ∷ xs) [] h = absurd (ground (arith, h))
is_same_key→eq (x ∷ xs) (y ∷ ys) h = ground (arith, ==→eq x y, is_same_key→eq xs ys)

-- A room may be added for a key that has none.
abbrev pub IsFree : ConversationRow → List ConversationRow → Type 0
IsFree c cs =
    (k : List Uuid)
    → rooms_with k cs ≤ 1
    → rooms_with k cs + (if holds_key c.direct_key k then 1 else 0) ≤ 1

pub key-IsFree :
    (c : ConversationRow) (key : List Uuid) (cs : List ConversationRow)
    → c.direct_key ≡ some key
    → is_some (by_direct_key key cs) ≡ false
    → IsFree c cs
key-IsFree c key cs own none' k h = elim (Bool-cases (is_same_key key k)) [
  | inl same ↦
      let zero_rooms = by_direct_key_none key cs none' in
      let eq = ap (λ x. rooms_with x cs) (is_same_key→eq key k same) in
      ground (arith, own, h, eq, zero_rooms)
  | inr other ↦ ground (arith, own, h, other)
]

mark_members-member_of :
    (ks : List (Uuid × Uuid)) (v c u : ℕ) (ms : List MemberRow)
    → is_some (member_of c u (mark_members ks v ms)) ≡ is_some (member_of c u ms)
unfolding mark_members member_of
mark_members-member_of ks v c u [] = refl
mark_members-member_of ks v c u (m ∷ ms) = ground (arith, mark_members-member_of ks v c u ms)

set_read_seq-member_of :
    (d w n c u : ℕ) (ms : List MemberRow)
    → is_some (member_of c u (set_read_seq d w n ms)) ≡ is_some (member_of c u ms)
unfolding set_read_seq member_of
set_read_seq-member_of d w n c u [] = refl
set_read_seq-member_of d w n c u (m ∷ ms) = ground (arith, set_read_seq-member_of d w n c u ms)

pub append-member_of :
    (c u : ℕ) (ms more : List MemberRow)
    → is_some (member_of c u ms) ≡ true
    → is_some (member_of c u (ms ++ more)) ≡ true
unfolding member_of
append-member_of c u [] more h = absurd (ground (arith, h))
append-member_of c u (m ∷ ms) more h = ground (arith, append-member_of c u ms more)

pub append-last_seq_of :
    (i : ℕ) (cs : List ConversationRow) (c : ConversationRow)
    → c.last_seq ≡ 0
    → last_seq_of i (cs ++ c ∷ []) ≡ last_seq_of i cs
unfolding last_seq_of
append-last_seq_of i [] c h = ground (arith, h)
append-last_seq_of i (x ∷ cs) c h = ground (arith, append-last_seq_of i cs c h)

pub apply_bump-IfRests : (b : MetadataBump) (db : LogDb) → IfRests db (apply_bump b db)
unfolding apply_bump
apply_bump-IfRests b db =
    split (IfRests db)
      (is_nothing b
        || not (has_conversations b.conversations db.conversations)
        || not (has_members b.members db.members)
        || not (has_people b.users db.people))
      {x = none}
      {y = some (record db {
        log_counter = suc db.log_counter;
        conversations = mark_conversations b.conversations (suc db.log_counter) db.conversations;
        members = mark_members b.members (suc db.log_counter) db.members;
        people = mark_people b.users (suc db.log_counter) db.people;
      })}
      (λ _. tt)
      (λ _. record {
        messages = refl;
        last_seqs = λ i.
            mark_conversations-last_seq_of b.conversations (suc db.log_counter) i db.conversations;
        counter = omega arith;
        stay = λ c u h. mark_members-member_of b.members (suc db.log_counter) c u db.members ∙ h;
        one_room = λ k h.
            rw
              (mark_conversations-rooms_with b.conversations (suc db.log_counter) k
                db.conversations)
              h;
      })

announce-IfRests :
    (conv user before after : ℕ) (db : LogDb) (o : Option LogDb)
    → IfRests db o
    → IfRests db (announce conv user before after o)
unfolding announce
announce-IfRests conv user before after db none r = r
announce-IfRests conv user before after db (some d) r = record {
  messages = r.messages;
  last_seqs = r.last_seqs;
  counter = r.counter;
  stay = r.stay;
  one_room = r.one_room;
}

settle_read-IfRests :
    (conv user before after : ℕ) (db : LogDb) → IfRests db (settle_read conv user before after db)
unfolding settle_read
settle_read-IfRests conv user before after db =
    split (IfRests db) (ltb before after)
      (λ _. announce-IfRests conv user before after db _ (apply_bump-IfRests _ db))
      (λ _. Rests-refl db)

commit_read-Rests :
    (r : ReadReceipt) (db mid : LogDb) (o : Option LogDb)
    → Rests db mid
    → IfRests mid o
    → Rests db (commit_read r db o).1
unfolding commit_read
commit_read-Rests r db mid none first then' = Rests-refl db
commit_read-Rests r db mid (some d) first then' = Rests-trans db mid d first then'

read_in-Rests :
    (conv user up_to : ℕ) (fails : Bool) (m : MemberRow) (o : Option ConversationRow) (db : LogDb)
    → Rests db (read_in conv user up_to fails m o db).1
unfolding read_in
read_in-Rests conv user up_to fails m none db = Rests-refl db
read_in-Rests conv user up_to fails m (some c) db =
    split (λ (r : ReadAnswer × LogDb). Rests db r.1) fails (λ _. Rests-refl db)
      (λ _.
        commit_read-Rests _ db _ _
          (record {
            messages = refl;
            last_seqs = λ i. refl;
            counter = omega arith;
            stay = λ x u h. set_read_seq-member_of conv user _ x u db.members ∙ h;
            one_room = λ k h. h;
          })
          (settle_read-IfRests conv user m.read_seq _ _))

pub mark_read-Rests :
    (conv user up_to : ℕ) (fails : Bool) (db : LogDb)
    → Rests db (mark_read conv user up_to fails db).1
unfolding mark_read read_as
mark_read-Rests conv user up_to fails db =
    split (λ (r : ReadAnswer × LogDb). Rests db r.1) (ltb up_to 1) (λ _. Rests-refl db)
      (λ _. go (member_of conv user db.members))
  where
    go : (o : Option MemberRow) → Rests db (read_as conv user up_to fails o db).1
    go none = Rests-refl db
    go (some m) = read_in-Rests conv user up_to fails m (conversation_of conv db.conversations) db
