-- ===== src/Client/CatchUp/Gap.antt =====
-- A wipe between a page that has more and the next request's read of the epoch.
use catenary.Prelude.{
  ℕ, ◌<◌, ◌≡◌, refl, true, false, Option, some, [], ◌∷◌, arith, has, member, lookup,
}
use catenary.Client.State.{SyncResponse, ServerReady, Device, LogEntry}
use catenary.Client.Apply.{apply_page, on_ready}
use catenary.Client.Apply.Coverage.{IsCorrect, ids, apply_page-Landed}
use catenary.Client.CatchUp.{
  ready, handle, Round, Decision, done, ask, land, proceed, receive, page_loop,
}

module _ (d : Device) (q : ServerReady) (c : IsCorrect d.client.faults)
    (alive : d.client.killed ≡ false) (held : d.journal.has_cursor ≡ true)
    (behind : q.log_seq < d.journal.cursor) where
  on_ready_wiped :
      ((on_ready d q).journal.messages ≡ [])
      × ((on_ready d q).journal.has_cursor ≡ false)
      × ((on_ready d q).client.killed ≡ false)
      × ((on_ready d q).client.faults ≡ d.client.faults)
  unfolding on_ready
  on_ready_wiped = ground arith

apply_page_applied :
    (d : Device) (p : SyncResponse)
    → d.client.killed ≡ false
    → (apply_page d p d.journal.wipes).1 ≡ true
unfolding apply_page
apply_page_applied d p alive = ground arith

proceed_stop-journal :
    (v : Decision) (d : Device) → (proceed (page_loop []) v d).1.journal ≡ d.journal
unfolding proceed page_loop
proceed_stop-journal done d = refl
proceed_stop-journal (ask next) d = ground arith

receive_stop-journal :
    (p : SyncResponse) (d : Device) (issued : ℕ)
    → (receive (page_loop []) (some p) d d.journal.wipes [] issued).1.journal
      ≡ (apply_page d p d.journal.wipes).0.journal
unfolding receive
receive_stop-journal p d issued = proceed_stop-journal _ (land d p d.journal.wipes [])

-- A request before which a `ready` arrives, and nothing else beside it.
abbrev pub gap_round : ServerReady → (ℕ → Option SyncResponse) → Round
gap_round q serve = record {
  before = ready q ∷ [];
  between = [];
  in_flight = [];
  serve = serve;
  landed = [];
}

-- In the middle of a pass, a ready that wipes the store arrives before the next request reads the
-- epoch: the page asked for from the old position lands on the emptied store, the cursor becomes
-- the page's, and an entry that the page does not carry is not held, however far below the cursor
-- it lies. The client is correct and alive, and has a cursor that the ready is behind.
pub page_loop-gap_wipe :
    (d : Device) (q : ServerReady) (n : ℕ) (serve : ℕ → Option SyncResponse) (p : SyncResponse)
    (e : LogEntry)
    → IsCorrect d.client.faults
    → d.client.killed ≡ false
    → d.journal.has_cursor ≡ true
    → q.log_seq < d.journal.cursor
    → serve n ≡ some p
    → has e.id (ids p.messages) ≡ false
    → ((page_loop (gap_round q serve ∷ []) (some n) d).1.journal.cursor ≡ p.log_seq)
      × (member e.id (page_loop (gap_round q serve ∷ []) (some n) d).1.journal.messages ≡ false)
unfolding page_loop handle lookup
page_loop-gap_wipe d q n serve p e c alive held behind hs out =
    let d1 = on_ready d q in
    let d2 = record d1 { client = record d1.client { from0 = d1.client.from0 } } in
    let (emptied, no_cursor, alive', faults) = on_ready_wiped d q c alive held behind in
    let c' : IsCorrect d2.client.faults = rw faults c in
    let l = apply_page-Landed d2 p d2.journal.wipes e.id c' (apply_page_applied d2 p alive') in
    rw (hs, receive_stop-journal p d2 d1.client.gen) (ground (arith, l))
