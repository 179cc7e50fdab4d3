-- ===== src/Delivery/Whole.antt =====
-- internal/store/messages.go, sync.go and internal/client/client.go: what a device holds after a catch-up.
use catenary.Prelude.{
  ℕ, zero, suc, Bool-cases, ◌≤◌, ◌<◌, ◌≡◌, refl, inl, inr, true, false, Option, some, List, [], ◌∷◌,
  arith, All, exists, has, map, ◌==◌, member,
}
use mathlib.Core.Path.{subst, sym}
use catenary.Prelude.Int.{ℤ}
use catenary.Client.State.{SyncResponse, Device, LogEntry, Message}
use catenary.Client.Apply.Coverage.{Brings, ids}
use catenary.Client.CatchUp.{Round, caught_up, catch_up}
use catenary.Client.CatchUp.Moves.{IsGood, IsCalm}
use catenary.Client.CatchUp.Complete.{IsServed, catch_up_complete}
use catenary.Client.CatchUp.Ends.{Progresses, catch_up-ends, repeat}
use catenary.Store.Tables.{Uuid}
use catenary.Store.Log.{MessageRow, LogDb}
use catenary.Store.Uploads.{Resolver}
use catenary.Store.Messages.{Limits}
use catenary.Store.Messages.Numbers.{Within, IsLog}
use catenary.Store.Acts.{Act, acts}
use catenary.Store.Acts.Log.{acts-Keeps}
use catenary.Store.Sync.{sync}
use catenary.Store.Sync.Page.{Within-bound, shows, is_row, sync-brings, sync-moves}
use catenary.Delivery.{Rendering, wire_message, wire_page, Visit, visit_round, rounds}

-- What the calls keep of the tables: they are a log, they show the entry, and their counter is not behind.
record Grows (viewer : Uuid) (e : LogEntry) (head : ℕ) (db : LogDb) : Type 0 where
  log : IsLog db
  shown : shows viewer db (e.id, e.log_seq) ≡ true
  beyond : head ≤ db.log_counter

module _ (r : Rendering) (viewer : Uuid) (limit : ℤ) (e : LogEntry) (head : ℕ) where
  acts-Grows :
      (limits : Limits) (resolver : Resolver) (as' : List Act) (db : LogDb)
      → Grows viewer e head db
      → Grows viewer e head (acts limits resolver as' db)
  acts-Grows limits resolver as' db g =
      let (log, shown, beyond) =
        acts-Keeps limits resolver as' db viewer (e.id, e.log_seq) g.log g.shown in
      record { log = log; shown = shown; beyond = omega (arith, beyond, g.beyond) }

  has-ids :
      (k : ℕ) (f : MessageRow → Message) (ms : List MessageRow)
      → ((m : MessageRow) → (f m).id ≡ m.id)
      → has k (ids (map f ms)) ≡ exists (λ (m : MessageRow). m.id == k) ms
  has-ids k f [] h = refl
  has-ids k f (m ∷ ms) h = rw (h m, has-ids k f ms h) refl

  wire_page-Brings :
      (db : LogDb) (after : ℕ)
      → Grows viewer e head db
      → Brings e after (wire_page r (sync viewer after limit db))
  unfolding wire_page wire_message
  wire_page-Brings db after g above below =
      let page = sync viewer after limit db in
      rw (has-ids e.id (wire_message r page) page.messages (λ m. refl))
        (sync-brings viewer after limit db g.log (e.id, e.log_seq) g.shown above below)

  -- Every `ready` arrives while a request is in flight.
  abbrev pub Calm : Visit r → Type 0
  Calm v = IsCalm v.before × IsCalm v.between × IsCalm v.landed

  visit_round-page :
      (v : Visit r) (db : LogDb) (after : ℕ) (p : SyncResponse)
      → (visit_round r viewer limit db v).serve after ≡ some p
      → p ≡ wire_page r (sync viewer after limit db)
  visit_round-page v db after p h = ground arith

  visit_round-IsServed :
      (v : Visit r) (db : LogDb)
      → Grows viewer e head db
      → Calm v
      → IsServed e head (visit_round r viewer limit db v)
  unfolding wire_page
  visit_round-IsServed v db g calm = record {
    brings = λ after p h.
        subst (Brings e after) (sym (visit_round-page v db after p h))
          (wire_page-Brings db after g);
    reaches = λ after p h last.
        let eq = visit_round-page v db after p h in
        let (moves, reaches) = sync-moves viewer after limit db g.log in
        ground (arith, g.beyond, reaches);
    calm_before = calm.0;
    calm_between = calm.1;
    calm_landed = calm.2;
  }

  rounds-All :
      (limits : Limits) (resolver : Resolver) (vs : List (Visit r)) (db : LogDb)
      → Grows viewer e head db
      → All Calm vs
      → All (IsServed e head) (rounds r limits resolver viewer limit vs db)
  rounds-All limits resolver [] db g calm = tt
  rounds-All limits resolver (v ∷ vs) db g calm =
      let g' = acts-Grows limits resolver v.acts db g in
      (visit_round-IsServed v _ g' calm.0, rounds-All limits resolver vs _ g' calm.1)

-- A shown entry lies above 0 and at or below the counter.
shown_between :
    (viewer : Uuid) (db : LogDb) (e : ℕ × ℕ) (low high : ℕ) (ms : List MessageRow)
    → Within low ms high
    → exists (is_row viewer db e) ms ≡ true
    → (low < e.1) × (e.1 ≤ high)
shown_between viewer db e low high [] w h = absurd (ground arith)
shown_between viewer db e low high (m ∷ ms) w h = elim (Bool-cases (is_row viewer db e m)) [
  | inl this ↦ ground (arith, w.0, Within-bound m.log_seq high ms w.1)
  | inr other ↦
      let (above, below) = shown_between viewer db e m.log_seq high ms w.1 (ground arith) in
      (omega (arith, above, w.0), below)
]

module _ (r : Rendering) (viewer : Uuid) (limit : ℤ) (e : LogEntry) where
  -- What a catch-up that ends by itself holds, from a device that lacks nothing below its cursor.
  held :
      (head : ℕ) (rs : List Round) (d : Device)
      → (0 < e.log_seq) × (e.log_seq ≤ head)
      → IsGood e d
      → All (IsServed e head) rs
      → (catch_up rs d).0 ≡ caught_up
      → member e.id (catch_up rs d).1.journal.messages ≡ true
  held head rs d within good served ended =
      let (covered, reached, settled) = catch_up_complete e head rs d good served ended in
      ground (arith, within)

  -- A catch-up during which others send messages, read and make rooms between any two of its
  -- requests, and which ends by its own condition, leaves the device with every message that
  -- its user could see when it began, if the device held those at or below its cursor and every
  -- ready arrives while a request is in flight: none before a request has read the epoch, and
  -- none between the landing of a page and the decision on it.
  pub catch_up_delivers :
      (limits : Limits) (resolver : Resolver) (vs : List (Visit r)) (db : LogDb) (d : Device)
      → IsLog db
      → shows viewer db (e.id, e.log_seq) ≡ true
      → IsGood e d
      → All (Calm r viewer limit e db.log_counter) vs
      → (catch_up (rounds r limits resolver viewer limit vs db) d).0 ≡ caught_up
      → member e.id (catch_up (rounds r limits resolver viewer limit vs db) d).1.journal.messages
        ≡ true
  catch_up_delivers limits resolver vs db d log shown good calm =
      held db.log_counter _ d
        (shown_between viewer db (e.id, e.log_seq) 0 db.log_counter db.messages log.ordered shown)
        good
        (rounds-All r viewer limit e db.log_counter limits resolver vs db
          (record { log = log; shown = shown; beyond = omega arith }) calm)

-- The page that a request on these tables is answered with.
abbrev pub answer : Rendering → Uuid → ℤ → LogDb → ℕ → Option SyncResponse
answer r viewer limit db after = some (wire_page r (sync viewer after limit db))

module _ (r : Rendering) (viewer : Uuid) (limit : ℤ) (db : LogDb) (log : IsLog db) where
  pub answer-Progresses : Progresses db.log_counter (answer r viewer limit db)
  unfolding wire_page
  answer-Progresses = record {
    answers = λ after. (wire_page r (sync viewer after limit db), refl);
    advances = λ after p h more. ground (arith, sync-moves viewer after limit db log);
    bounded = λ after p h more. ground (arith, sync-moves viewer after limit db log);
  }

  -- The requests of a catch-up: as many as the counter, and one.
  abbrev pub requests : List Round
  requests = repeat db.log_counter (answer r viewer limit db) answer-Progresses (suc db.log_counter)

  repeat-All :
      (e : LogEntry) (n : ℕ)
      → Grows viewer e db.log_counter db
      → All
          (IsServed e db.log_counter)
          (repeat db.log_counter (answer r viewer limit db) answer-Progresses n)
  repeat-All e zero g = tt
  repeat-All e (suc n) g = (
    visit_round-IsServed r viewer limit e db.log_counter
        (record {
          acts = [];
          before = [];
          between = [];
          in_flight = [];
          landed = [];
          arrives = true;
        })
        db g (tt, tt, tt),
    repeat-All e n g,
  )

  -- The catch-up of a client that is not killed, over a log that nobody writes meanwhile, ends
  -- by its own condition within one request more than the head, and then the device holds every
  -- message that its user may see, if it held those at or below its cursor before.
  pub catch_up_settles :
      (d : Device) (e : LogEntry)
      → d.client.killed ≡ false
      → shows viewer db (e.id, e.log_seq) ≡ true
      → IsGood e d
      → ((catch_up requests d).0 ≡ caught_up)
        × (member e.id (catch_up requests d).1.journal.messages ≡ true)
  catch_up_settles d e alive shown good =
      let ended =
        catch_up-ends db.log_counter (answer r viewer limit db) answer-Progresses d alive in
      let within =
        shown_between viewer db (e.id, e.log_seq) 0 db.log_counter db.messages log.ordered shown in
      let g : Grows viewer e db.log_counter db = record {
        log = log;
        shown = shown;
        beyond = omega arith;
      } in
      (
        ended,
        held r viewer limit e db.log_counter requests d within good
            (repeat-All e (suc db.log_counter) g) ended,
      )
