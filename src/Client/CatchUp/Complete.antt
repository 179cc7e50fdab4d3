-- ===== src/Client/CatchUp/Complete.antt =====
-- internal/client/client.go, catchUp, obligations 2 and 3: what a catch-up leaves when it ends.
use catenary.Prelude.{
  ℕ, ◌≤◌, ◌≡◌, refl, sym, inl, inr, Bool, true, false, Option, none, some, List, [], ◌∷◌, arith,
  Bool-cases, if◌then◌else◌, All,
}
use catenary.Client.State.{SyncResponse, Device, LogEntry}
use catenary.Client.Apply.{apply_page}
use catenary.Client.Apply.Coverage.{
  Covered, IsCorrect, Brings, apply_page-Covered, apply_page-Landed, apply_page_dropped,
}
use catenary.Client.CatchUp.{
  Event, handle_all, Round, Result, caught_up, abandoned, after_of, Decision, done, ask, decide,
  starts_at_0, before_request, land, proceed, receive, page_loop, catch_up,
}
use catenary.Client.CatchUp.Moves.{
  IsGood, handle_all-Moves, handle_all-IsGood, handle_all-wipes, IsCalm,
}

-- What a round's server and surroundings keep to, for one log entry and the server's head: a page
-- carries the entry if it lies between the cursor asked from and the page's own, the last page reaches
-- the head, and every `ready` arrives while the request is in flight.
pub record IsServed (e : LogEntry) (head : ℕ) (r : Round) : Type 0 where
  pub brings : (after : ℕ) (p : SyncResponse) → r.serve after ≡ some p → Brings e after p
  pub reaches :
      (after : ℕ) (p : SyncResponse)
      → r.serve after ≡ some p
      → p.has_more ≡ false
      → head ≤ p.log_seq
  pub calm_before : IsCalm r.before
  pub calm_between : IsCalm r.between
  pub calm_landed : IsCalm r.landed

-- The page to continue from is behind the cursor.
abbrev Behind : Option ℕ → Device → Type 0
Behind none d = Unit {0}
Behind (some n) d = n ≤ d.journal.cursor

module _ (e : LogEntry) (head : ℕ) where
  -- What a pass must have when it ends by its own condition.
  pub record IsEnd (r : Result × Device) : Type 0 where
    pub good : IsGood e r.1
    pub reached : r.0 ≡ caught_up → head ≤ r.1.journal.cursor
    pub settled : r.0 ≡ caught_up → r.1.client.done_gen ≡ r.1.client.gen

  module _ (d : Device) (p : SyncResponse) (epoch : ℕ) where
    apply_page-client : (apply_page d p epoch).0.client ≡ d.client
    unfolding apply_page
    apply_page-client = ground arith

    apply_page-IsGood :
        (after : ℕ)
        → IsGood e d
        → ((apply_page d p epoch).1 ≡ true → after ≤ d.journal.cursor)
        → Brings e after p
        → IsGood e (apply_page d p epoch).0
    apply_page-IsGood after v o b = elim (Bool-cases (apply_page d p epoch).1) [
      | inl landed ↦ record {
        correct = rw apply_page-client v.correct;
        seated = λ h. absurd (ground (arith, apply_page-Landed d p epoch e.id v.correct landed));
        covered = apply_page-Covered d p epoch after e v.correct o b v.covered;
      }
      | inr dropped ↦ rw (apply_page_dropped d p epoch dropped) v
    ]

    land-IsGood :
        (evs : List Event) → IsGood e (apply_page d p epoch).0 → IsGood e (land d p epoch evs)
    land-IsGood evs v =
        let w = handle_all-IsGood e (apply_page d p epoch).0 evs v in
        record { correct = w.correct; seated = w.seated; covered = w.covered }

    -- A page that landed leaves the cursor at least at its own, if no wipe follows before the switch.
    land-cursor :
        (evs : List Event)
        → IsCorrect d.client.faults
        → (apply_page d p epoch).1 ≡ true
        → IsCalm evs
        → p.log_seq ≤ (land d p epoch evs).journal.cursor
    land-cursor evs c landed calm =
        let d' = (apply_page d p epoch).0 in
        let c' : IsCorrect d'.client.faults = rw apply_page-client c in
        let l = apply_page-Landed d p epoch e.id c landed in
        let kept = (handle_all-Moves d' evs c').cursor (sym (handle_all-wipes d' evs c' calm)) in
        ground (arith, l, kept)

  -- What the switch says of the page, on either way out.
  abbrev Means : Device → Bool → SyncResponse → ℕ → Decision → Type 0
  Means d applied p issued done = (applied ≡ true) × (p.has_more ≡ false) × (issued ≡ d.client.gen)
  Means d applied p issued (ask none) = Unit {0}
  Means d applied p issued (ask (some n)) = (applied ≡ true) × (n ≡ p.log_seq)

  decide-Means :
      (d : Device) (applied : Bool) (p : SyncResponse) (issued : ℕ)
      → IsCorrect d.client.faults
      → Means d applied p issued (decide d.client applied p issued)
  unfolding decide
  decide-Means d applied p issued c = ground arith

  IsEnd-if : (b : Bool) {x y : Result × Device} → IsEnd x → IsEnd y → IsEnd (if b then x else y)
  IsEnd-if true h k = h
  IsEnd-if false h k = k

  killed-IsEnd : (d : Device) → IsGood e d → IsEnd (abandoned, d)
  killed-IsEnd d g = record { good = g; reached = λ h. cc; settled = λ h. cc }

  module _ (k : Option ℕ → Device → Result × Device)
      (continues : (next : Option ℕ) (d : Device)
        → IsGood e d
        → Behind next d
        → IsEnd (k next d)) where
    proceed-IsEnd :
        (v : Decision) (d : Device) (applied : Bool) (p : SyncResponse) (issued : ℕ)
        → IsGood e d
        → Means d applied p issued v
        → (applied ≡ true → p.log_seq ≤ d.journal.cursor)
        → (p.has_more ≡ false → head ≤ p.log_seq)
        → IsEnd (proceed k v d)
    unfolding proceed
    proceed-IsEnd done d applied p issued g m o r = record {
      good = record { correct = g.correct; seated = g.seated; covered = g.covered };
      reached = λ h. omega (arith, o m.0, r m.1);
      settled = λ h. refl;
    }
    proceed-IsEnd (ask none) d applied p issued g m o r =
        IsEnd-if d.client.killed (killed-IsEnd d g) (continues none d g tt)
    proceed-IsEnd (ask (some n)) d applied p issued g m o r =
        IsEnd-if d.client.killed (killed-IsEnd d g) (continues (some n) d g (omega (arith, o m.0)))

    receive-IsEnd :
        (a : Option SyncResponse) (d : Device) (epoch after : ℕ) (evs : List Event) (issued : ℕ)
        → IsGood e d
        → IsCalm evs
        → ((p : SyncResponse)
            → a ≡ some p
            → (apply_page d p epoch).1 ≡ true
            → after ≤ d.journal.cursor)
        → ((p : SyncResponse) → a ≡ some p → Brings e after p)
        → ((p : SyncResponse) → a ≡ some p → p.has_more ≡ false → head ≤ p.log_seq)
        → IsEnd (receive k a d epoch evs issued)
    unfolding receive
    receive-IsEnd none d epoch after evs issued g calm o b r = record {
      good = g;
      reached = λ h. cc;
      settled = λ h. cc;
    }
    receive-IsEnd (some p) d epoch after evs issued g calm o b r =
        let landed = apply_page-IsGood d p epoch after g (o p refl) (b p refl) in
        let g' = land-IsGood d p epoch evs landed in
        proceed-IsEnd _ (land d p epoch evs) (apply_page d p epoch).1 p issued g'
          (decide-Means (land d p epoch evs) (apply_page d p epoch).1 p issued g'.correct)
          (λ h. land-cursor d p epoch evs g.correct h calm) (r p refl)

  after_of-none-le : (b : Bool) (d : Device) → after_of b none d ≤ d.journal.cursor
  after_of-none-le true d = omega arith
  after_of-none-le false d = omega arith

  -- The device at the request's first read: `from0` may have been taken.
  abbrev taken : Device → Option ℕ → Device
  taken d next = record d {
    client = record d.client { from0 = if starts_at_0 d next then false else d.client.from0 };
  }

  taken-IsGood : (d : Device) (next : Option ℕ) → IsGood e d → IsGood e (taken d next)
  taken-IsGood d next g = record { correct = g.correct; seated = g.seated; covered = g.covered }

  -- The cursor that a request carries is not ahead of the journal's.
  after_of-le :
      (next : Option ℕ) (d : Device) (r : Round)
      → IsGood e d
      → Behind next d
      → IsCalm r.between
      → after_of (starts_at_0 d next) next (before_request d next r)
        ≤ (before_request d next r).journal.cursor
  after_of-le none d r g b calm = after_of-none-le _ _
  after_of-le (some n) d r g b calm =
      let t = taken d (some n) in
      let c = (taken-IsGood d (some n) g).correct in
      let on =
        (handle_all-Moves t r.between c).cursor (sym (handle_all-wipes t r.between c calm)) in
      omega (arith, on)

  apply_page-epoch :
      (d : Device) (p : SyncResponse) (epoch : ℕ)
      → (apply_page d p epoch).1 ≡ true
      → d.journal.wipes ≡ epoch
  unfolding apply_page
  apply_page-epoch d p epoch h = ground arith

  Behind-before :
      (next : Option ℕ) (d : Device) (r : Round)
      → IsGood e d
      → IsCalm r.before
      → Behind next d
      → Behind next (handle_all d r.before)
  Behind-before none d r g calm b = tt
  Behind-before (some n) d r g calm b =
      let on =
        (handle_all-Moves d r.before g.correct).cursor
          (sym (handle_all-wipes d r.before g.correct calm)) in
      omega (arith, on)

  page_loop-IsEnd :
      (rs : List Round) (next : Option ℕ) (d : Device)
      → All (IsServed e head) rs
      → IsGood e d
      → Behind next d
      → IsEnd (page_loop rs next d)
  unfolding page_loop
  page_loop-IsEnd [] next d s g b = record { good = g; reached = λ h. cc; settled = λ h. cc }
  page_loop-IsEnd (r ∷ rs) next d s g b =
      let d0 = handle_all d r.before in
      let g0 = handle_all-IsGood e d r.before g in
      let d1 = before_request d0 next r in
      let g1 = handle_all-IsGood e (taken d0 next) r.between (taken-IsGood d0 next g0) in
      let m = handle_all-Moves d1 r.in_flight g1.correct in
      let after = after_of (starts_at_0 d0 next) next d1 in
      let le =
        after_of-le next d0 r g0 (Behind-before next d r g s.0.calm_before b) s.0.calm_between in
      receive-IsEnd (page_loop rs) (λ next' d' g' b'. page_loop-IsEnd rs next' d' s.1 g' b')
        (r.serve after) (handle_all d1 r.in_flight) d1.journal.wipes after r.landed d0.client.gen
        (handle_all-IsGood e d1 r.in_flight g1) s.0.calm_landed
        (λ p h applied. omega (arith, le, m.cursor (sym (apply_page-epoch _ p _ applied))))
        (s.0.brings after) (s.0.reaches after)

  -- A whole pass: whatever live frames, introductions, receipts, triggers, kills and wipes fall into its
  -- requests, and however it ends.
  catch_up-IsEnd :
      (rs : List Round) (d : Device) → IsGood e d → All (IsServed e head) rs → IsEnd (catch_up rs d)
  unfolding catch_up
  catch_up-IsEnd rs d g s =
      let d0 = record d { client = record d.client { in_pass = true } } in
      let end =
        page_loop-IsEnd rs none d0 s
          (record { correct = g.correct; seated = g.seated; covered = g.covered }) tt in
      record {
        good = record {
          correct = end.good.correct;
          seated = end.good.seated;
          covered = end.good.covered;
        };
        reached = end.reached;
        settled = end.settled;
      }

  -- However a catch-up ends, an entry that was held if at or below the cursor before it still is, whatever
  -- the other contexts do, if the server and the surroundings keep to IsServed in every round.
  pub catch_up-Covered :
      (rs : List Round) (d : Device)
      → IsGood e d
      → All (IsServed e head) rs
      → Covered e (catch_up rs d).1.journal
  catch_up-Covered rs d g s = (catch_up-IsEnd rs d g s).good.covered

  pub catch_up_complete :
      (rs : List Round) (d : Device)
      → IsGood e d
      → All (IsServed e head) rs
      → (catch_up rs d).0 ≡ caught_up
      → Covered e (catch_up rs d).1.journal
        × (head ≤ (catch_up rs d).1.journal.cursor)
        × ((catch_up rs d).1.client.done_gen ≡ (catch_up rs d).1.client.gen)
  catch_up_complete rs d g s h =
      let end = catch_up-IsEnd rs d g s in (end.good.covered, end.reached h, end.settled h)
