-- ===== src/Client/Apply/Counted.antt =====
-- internal/client/client.go, recordLocked and its callers: the evidence log of the ids that were
-- held.
use catenary.Prelude.{
  ℕ, ◌≡◌, refl, sym, ap, ◌&&◌, ◌||◌, ◌∙◌, inl, inr, true, false, List, [], ◌∷◌, arith, Bool-cases,
  has, member, keys, keys-insert_held, keys-insert_new, member-has, IsDistinct,
  append_last-IsDistinct,
}
use catenary.Client.State.{Message, SyncResponse, ServerReady, Journal, Device, Faults, Uuid}
use catenary.Client.Apply.{
  record_locked, record_all, put_conversations, apply_page, apply_live, on_ready,
}
use catenary.Client.Apply.Coverage.{
  IsCorrect, Same, ids, put_conversations-Same, put_users-Same, apply_page-Landed,
  apply_page_dropped,
}

pub record IsCountedOnce (j : Journal) : Type 0 where
  pub counted : j.counted ≡ keys j.messages
  pub distinct : IsDistinct (keys j.messages)

record_locked-IsCountedOnce :
    (f : Faults) (j : Journal) (m : Message)
    → f.dedupe_by_log_seq ≡ false
    → IsCountedOnce j
    → IsCountedOnce (record_locked f j m)
unfolding record_locked
record_locked-IsCountedOnce f j m h v = elim (Bool-cases (has m.id (keys j.messages))) [
  | inl old ↦
      let kept = keys-insert_held m.id m j.messages old in
      let here : member m.id j.messages ≡ true = member-has m.id j.messages ∙ old in
      ground (arith, kept, here)
  | inr new ↦
      let grown = keys-insert_new m.id m j.messages new in
      let absent : member m.id j.messages ≡ false = member-has m.id j.messages ∙ new in
      ground (arith, grown, absent, append_last-IsDistinct (keys j.messages) m.id v.distinct new)
]

record_all-IsCountedOnce :
    (f : Faults) (j : Journal) (ms : List Message)
    → f.dedupe_by_log_seq ≡ false
    → IsCountedOnce j
    → IsCountedOnce (record_all f j ms)
unfolding record_all
record_all-IsCountedOnce f j [] h v = v
record_all-IsCountedOnce f j (m ∷ ms) h v =
    record_all-IsCountedOnce f (record_locked f j m) ms h (record_locked-IsCountedOnce f j m h v)

Same-IsCountedOnce : (j j' : Journal) → Same j j' → IsCountedOnce j → IsCountedOnce j'
Same-IsCountedOnce j j' s v = ground arith

module _ (d : Device) (c : IsCorrect d.client.faults) (v : IsCountedOnce d.journal) where
  page-IsCountedOnce :
      (p : SyncResponse) (epoch : ℕ) → IsCountedOnce (apply_page d p epoch).0.journal
  unfolding apply_page
  page-IsCountedOnce p epoch =
      let f = d.client.faults in
      let j = record_all f d.journal p.messages in
      let j' = put_conversations f j p.conversations in
      let w = record_all-IsCountedOnce f d.journal p.messages c.by_id v in
      let w' = Same-IsCountedOnce j j' (put_conversations-Same f j p.conversations) w in
      let w'' = Same-IsCountedOnce j' _ (put_users-Same j' p.users) w' in ground (arith, w'')

  has-counted : (j : Journal) (k : Uuid) → IsCountedOnce j → has k j.counted ≡ member k j.messages
  has-counted j k w = ap (has k) w.counted ∙ sym (member-has k j.messages)

  -- A page keeps the evidence log the list of the held ids, each once. If it lands, an id is in
  -- the log exactly if the page brings it or it was there; if it is dropped, exactly if it was
  -- there. The client is correct.
  pub apply_page-IsCountedOnce :
      (p : SyncResponse) (epoch : ℕ) (k : Uuid)
      → IsCountedOnce (apply_page d p epoch).0.journal
        × (has k (apply_page d p epoch).0.journal.counted
            ≡ ((apply_page d p epoch).1 && has k (ids p.messages) || has k d.journal.counted))
  apply_page-IsCountedOnce p epoch k =
      let w = page-IsCountedOnce p epoch in
      (
        w,
        elim (Bool-cases (apply_page d p epoch).1) [
          | inl landed ↦ ground (
            arith,
            landed,
            apply_page-Landed d p epoch k c landed,
            has-counted (apply_page d p epoch).0.journal k w,
            has-counted d.journal k v,
          )
          | inr dropped ↦
              rw
                (
                  ap (λ (x : Device). has k x.journal.counted)
                      (apply_page_dropped d p epoch dropped),
                  dropped,
                )
                refl
        ],
      )

  pub apply_live-IsCountedOnce : (m : Message) → IsCountedOnce (apply_live d m).journal
  unfolding apply_live
  apply_live-IsCountedOnce m =
      ground (arith, record_locked-IsCountedOnce d.client.faults d.journal m c.by_id v)

  pub on_ready-IsCountedOnce : (r : ServerReady) → IsCountedOnce (on_ready d r).journal
  unfolding on_ready
  on_ready-IsCountedOnce r = ground arith
