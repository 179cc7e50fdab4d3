-- ===== src/Store/Messages/Numbers.antt =====
-- internal/store/messages.go: the two ordinals and the idempotency key, over any sends.
use catenary.Prelude.{
  ap, ℕ, zero, suc, ◌+◌, ◌≤◌, ◌<◌, ◌≡◌, refl, sym, false, some, List, [], ◌∷◌, ◌++◌, ◌∙◌, ◌==◌,
  arith, is_some, if◌then◌else◌, ==→eq, split,
}
use mathlib.Core.Path.{subst}
use catenary.Store.Tables.{Uuid}
use catenary.Store.Log.{
  MessageRow, ConversationRow, LogDb, conversation_of, last_seq_of, has_key, by_key, draw_seq,
}
use catenary.Store.Uploads.{Resolver}
use catenary.Store.Messages.{NewMessage, Draw, Limits, written, new_row, send}
use catenary.Store.Messages.Effect.{Commits, send-Leaves}

-- Strictly ascending positions in the log, above the first bound and at most the second.
abbrev pub Within : ℕ → List MessageRow → ℕ → Type 0
Within low [] high = low ≤ high
Within low (m ∷ ms) high = (low < m.log_seq) × Within m.log_seq ms high

-- The ordinals of a conversation's messages, in the order of their inserts.
abbrev pub seqs : Uuid → List MessageRow → List ℕ
seqs c [] = []
seqs c (m ∷ ms) = let rest = seqs c ms in if m.conversation_id == c then m.seq ∷ rest else rest

-- 1, 2, and so on, to n.
abbrev pub count_up : ℕ → List ℕ
count_up zero = []
count_up (suc n) = count_up n ++ suc n ∷ []

-- How many rows have this author and this key.
unfoldable pub occurrences : Uuid → Uuid → List MessageRow → ℕ
unfolding has_key
occurrences a k [] = 0
occurrences a k (m ∷ ms) = (if has_key a k m then 1 else 0) + occurrences a k ms

-- The log is strictly ascending and at or below the counter, every conversation's ordinals are 1, 2, …
-- up to its last one, and no key of an author's stands on two rows.
pub record IsLog (db : LogDb) : Type 0 where
  pub ordered : Within 0 db.messages db.log_counter
  pub dense : (i : Uuid) → seqs i db.messages ≡ count_up (last_seq_of i db.conversations)
  pub keyed : (a k : Uuid) → occurrences a k db.messages ≤ 1

Within-append_last :
    (low high : ℕ) (ms : List MessageRow) (m : MessageRow)
    → Within low ms high
    → high < m.log_seq
    → Within low (ms ++ m ∷ []) m.log_seq
Within-append_last low high [] m w h = (omega (arith, w, h), omega arith)
Within-append_last low high (x ∷ ms) m w h = (w.0, Within-append_last x.log_seq high ms m w.1 h)

seqs-append_last :
    (c : Uuid) (ms : List MessageRow) (m : MessageRow)
    → seqs c (ms ++ m ∷ [])
      ≡ (if m.conversation_id == c then seqs c ms ++ m.seq ∷ [] else seqs c ms)
seqs-append_last c [] m = ground arith
seqs-append_last c (x ∷ ms) m = ground (arith, seqs-append_last c ms m)

occurrences-append_last :
    (a k : Uuid) (ms : List MessageRow) (m : MessageRow)
    → occurrences a k (ms ++ m ∷ []) ≡ occurrences a k ms + (if has_key a k m then 1 else 0)
unfolding occurrences
occurrences-append_last a k [] m = omega arith
occurrences-append_last a k (x ∷ ms) m = ground (arith, occurrences-append_last a k ms m)

by_key_none :
    (a k : Uuid) (ms : List MessageRow) → is_some (by_key a k ms) ≡ false → occurrences a k ms ≡ 0
unfolding occurrences by_key
by_key_none a k [] h = refl
by_key_none a k (x ∷ ms) h = ground (arith, by_key_none a k ms)

draw_seq-same :
    (i : Uuid) (c : ConversationRow) (cs : List ConversationRow)
    → conversation_of i cs ≡ some c
    → (last_seq_of i cs ≡ c.last_seq) × (last_seq_of i (draw_seq i cs) ≡ suc c.last_seq)
unfolding conversation_of draw_seq last_seq_of
draw_seq-same i c [] h = absurd (ground (arith, h))
draw_seq-same i c (x ∷ cs) h = ground (arith, draw_seq-same i c cs)

draw_seq-other :
    (i j : Uuid) (cs : List ConversationRow)
    → (i == j) ≡ false
    → last_seq_of j (draw_seq i cs) ≡ last_seq_of j cs
unfolding draw_seq last_seq_of
draw_seq-other i j [] h = refl
draw_seq-other i j (x ∷ cs) h = ground (arith, draw_seq-other i j cs h)

module _ (limits : Limits) (resolver : Resolver) (m : NewMessage) (q : Draw) (db : LogDb) where
  written-dense :
      IsLog db
      → (c : ConversationRow) → conversation_of m.conversation_id db.conversations ≡ some c
      → (i : Uuid)
      → seqs i (db.messages ++ new_row limits resolver m q c.last_seq db ∷ [])
        ≡ count_up (last_seq_of i (draw_seq m.conversation_id db.conversations))
  unfolding new_row
  written-dense v c h i =
      rw (seqs-append_last i db.messages (new_row limits resolver m q c.last_seq db)) (
        split
          (λ (s : List ℕ).
            s ≡ count_up (last_seq_of i (draw_seq m.conversation_id db.conversations)))
          (m.conversation_id == i)
          (λ same.
            subst
              (λ k.
                seqs k db.messages ++ suc c.last_seq ∷ []
                ≡ count_up (last_seq_of k (draw_seq m.conversation_id db.conversations)))
              (==→eq _ i same)
              (let (old, new) = draw_seq-same m.conversation_id c db.conversations h in
                rw (new, v.dense m.conversation_id, old) refl))
          (λ apart. v.dense i ∙ ap count_up (sym (draw_seq-other _ i db.conversations apart))))

  written-keyed :
      IsLog db
      → is_some (by_key m.author_id m.client_id db.messages) ≡ false
      → (last_seq : ℕ) (a k : Uuid)
      → occurrences a k (db.messages ++ new_row limits resolver m q last_seq db ∷ []) ≤ 1
  unfolding new_row has_key
  written-keyed v new n a k =
      let row = new_row limits resolver m q n db in
      ground (
        arith,
        occurrences-append_last a k db.messages row,
        v.keyed a k,
        by_key_none m.author_id m.client_id db.messages new,
      )

  written-IsLog : IsLog db → Commits limits resolver m q db IsLog
  unfolding written new_row has_key
  written-IsLog v rows uploads c h new = record {
    ordered = Within-append_last 0 db.log_counter db.messages _ v.ordered (omega arith);
    dense = λ i. written-dense v c h i;
    keyed = λ a k. written-keyed v new c.last_seq a k;
  }

  -- X
  pub send-IsLog : (seen : LogDb) → IsLog db → IsLog (send limits resolver m q seen db).1
  send-IsLog seen v = send-Leaves limits resolver m q db IsLog v (written-IsLog v) seen
