-- ===== src/Store/Marks.antt =====
-- internal/store/metadata.go: metadataBump, the one draw from the log's counter for any number of rows
-- whose metadata moved. The order in which it locks the rows has no effect in one transaction.
use catenary.Prelude.{
  ℕ, suc, Bool, true, false, not, ◌&&◌, ◌||◌, Option, none, some, List, [], ◌∷◌, ◌==◌, has, is_some,
  if◌then◌else◌,
}
use catenary.Store.Tables.{Uuid}
use catenary.Store.Log.{ConversationRow, MemberRow, PersonRow, LogDb, conversation_of, member_of}

pub record MetadataBump : Type 0 where
  pub conversations : List Uuid
  pub members : List (Uuid × Uuid)
  pub users : List Uuid

abbrev pub new_metadata_bump : MetadataBump
new_metadata_bump = record { conversations = []; members = []; users = [] }

unfoldable pub person_of : Uuid → List PersonRow → Option PersonRow
person_of u [] = none
person_of u (p ∷ ps) = if p.id == u then some p else person_of u ps

abbrev pub is_named_member : Uuid → Uuid → List (Uuid × Uuid) → Bool
is_named_member c u [] = false
is_named_member c u ((d, v) ∷ ks) = if d == c && v == u then true else is_named_member c u ks

-- The rows that the bump names are there.
unfoldable pub has_conversations : List Uuid → List ConversationRow → Bool
has_conversations [] cs = true
has_conversations (i ∷ is) cs = is_some (conversation_of i cs) && has_conversations is cs

unfoldable pub has_members : List (Uuid × Uuid) → List MemberRow → Bool
has_members [] ms = true
has_members ((c, u) ∷ ks) ms = is_some (member_of c u ms) && has_members ks ms

unfoldable pub has_people : List Uuid → List PersonRow → Bool
unfolding person_of
has_people [] ps = true
has_people (u ∷ us) ps = is_some (person_of u ps) && has_people us ps

abbrev pub is_nothing : MetadataBump → Bool
is_nothing b = elim b.conversations [
  | [] ↦ elim b.members [ [] ↦ elim b.users [ [] ↦ true | _ ∷ _ ↦ false ] | _ ∷ _ ↦ false ]
  | _ ∷ _ ↦ false
]

-- SET metadata_log_seq = $2.
unfoldable pub mark_conversations : List Uuid → ℕ → List ConversationRow → List ConversationRow
mark_conversations is v [] = []
mark_conversations is v (c ∷ cs) =
    (if has c.id is then record c { metadata_log_seq = v } else c) ∷ mark_conversations is v cs

unfoldable pub mark_members : List (Uuid × Uuid) → ℕ → List MemberRow → List MemberRow
mark_members ks v [] = []
mark_members ks v (m ∷ ms) =
    (if is_named_member m.conversation_id m.user_id ks
      then record m { metadata_log_seq = v }
      else m)
    ∷ mark_members ks v ms

unfoldable pub mark_people : List Uuid → ℕ → List PersonRow → List PersonRow
mark_people us v [] = []
mark_people us v (p ∷ ps) =
    (if has p.id us then record p { metadata_log_seq = v } else p) ∷ mark_people us v ps

-- apply: none is an error, whose transaction rolls back.
unfoldable pub apply_bump : MetadataBump → LogDb → Option LogDb
unfolding has_conversations has_members has_people mark_conversations mark_members mark_people
apply_bump b db =
    if is_nothing b
      || not (has_conversations b.conversations db.conversations)
      || not (has_members b.members db.members)
      || not (has_people b.users db.people)
    then none
    else some (record db {
      log_counter = suc db.log_counter;
      conversations = mark_conversations b.conversations (suc db.log_counter) db.conversations;
      members = mark_members b.members (suc db.log_counter) db.members;
      people = mark_people b.users (suc db.log_counter) db.people;
    })
