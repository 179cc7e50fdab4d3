-- ===== src/Client/CatchUp/Ends.antt =====
-- internal/client/client.go, catchUp: whether its loop ends, with nothing else going on.
use catenary.Prelude.{
  ℕ, zero, suc, ◌-◌, ◌≤◌, ◌<◌, ◌≡◌, inl, inr, true, false, Option, none, some, List, [], ◌∷◌, arith,
  Bool-cases, if◌then◌else◌,
}
use catenary.Client.State.{SyncResponse, Device}
use catenary.Client.Apply.{apply_page}
use catenary.Client.CatchUp.{Round, Result, caught_up, after_of, land, receive, page_loop, catch_up}

-- A request that nothing else falls beside.
abbrev pub quiet : (ℕ → Option SyncResponse) → Round
quiet serve = record { before = []; between = []; in_flight = []; serve = serve; landed = [] }

-- A server that answers every request, whose pages with more move on and stay at or below the head.
pub record Progresses (head : ℕ) (serve : ℕ → Option SyncResponse) : Type 0 where
  pub answers : (after : ℕ) → (p : SyncResponse) × (serve after ≡ some p)
  pub advances :
      (after : ℕ) (p : SyncResponse) → serve after ≡ some p → p.has_more ≡ true → after < p.log_seq
  pub bounded :
      (after : ℕ) (p : SyncResponse) → serve after ≡ some p → p.has_more ≡ true → p.log_seq ≤ head

module _ (head : ℕ) (serve : ℕ → Option SyncResponse) (s : Progresses head serve) where
  abbrev pub repeat : ℕ → List Round
  repeat zero = []
  repeat (suc n) = quiet serve ∷ repeat n

  apply_page_here :
      (d : Device) (p : SyncResponse)
      → d.client.killed ≡ false
      → ((apply_page d p d.journal.wipes).1 ≡ true)
        × ((apply_page d p d.journal.wipes).0.client ≡ d.client)
  unfolding apply_page
  apply_page_here d p alive = ground arith

  receive_last :
      (k : Option ℕ → Device → Result × Device) (d : Device) (p : SyncResponse)
      → d.client.killed ≡ false
      → p.has_more ≡ false
      → (receive k (some p) d d.journal.wipes [] d.client.gen).0 ≡ caught_up
  unfolding receive
  receive_last k d p alive last = ground (arith, apply_page_here d p alive)

  receive_more :
      (k : Option ℕ → Device → Result × Device) (d : Device) (p : SyncResponse)
      → d.client.killed ≡ false
      → p.has_more ≡ true
      → receive k (some p) d d.journal.wipes [] d.client.gen
        ≡ k (some p.log_seq) (land d p d.journal.wipes [])
  unfolding receive
  receive_more k d p alive more = ground (arith, apply_page_here d p alive)

  land_alive :
      (d : Device) (p : SyncResponse)
      → d.client.killed ≡ false
      → (land d p d.journal.wipes []).client.killed ≡ false
  unfolding page_loop
  land_alive d p alive = ground (arith, apply_page_here d p alive)

  page_loop-ends :
      (n after : ℕ) (d : Device)
      → d.client.killed ≡ false
      → head - after < n
      → (page_loop (repeat n) (some after) d).0 ≡ caught_up
  unfolding page_loop
  page_loop-ends zero after d alive enough = absurd (omega arith)
  page_loop-ends (suc n) after d alive enough =
      let (p, answer) = s.answers after in
      rw answer (elim (Bool-cases p.has_more) [
        | inl more ↦ rw (receive_more (page_loop (repeat n)) d p alive more) (
            page_loop-ends n p.log_seq (land d p d.journal.wipes []) (land_alive d p alive)
              (omega (arith, s.advances after p answer more, s.bounded after p answer more)))
        | inr last ↦ receive_last (page_loop (repeat n)) d p alive last
      ])

  -- A first request, from the cursor or from 0.
  page_loop_first :
      (n : ℕ) (d : Device)
      → d.client.killed ≡ false
      → head < n
      → (page_loop (repeat n) none d).0 ≡ caught_up
  unfolding page_loop
  page_loop_first zero d alive enough = absurd (omega arith)
  page_loop_first (suc n) d alive enough =
      let t = record d {
        client = record d.client { from0 = if d.client.from0 then false else d.client.from0 };
      } in
      let (p, answer) = s.answers (after_of d.client.from0 none t) in
      rw answer (elim (Bool-cases p.has_more) [
        | inl more ↦ rw (receive_more (page_loop (repeat n)) t p alive more) (
            page_loop-ends n p.log_seq (land t p t.journal.wipes []) (land_alive t p alive)
              (omega (arith, s.advances _ p answer more, s.bounded _ p answer more)))
        | inr last ↦ receive_last (page_loop (repeat n)) t p alive last
      ])

  -- With a server that answers every request, whose pages with more move on and stay at or
  -- below the head, and nothing else going on, the catch-up of a client that is not killed ends
  -- by its own condition within one request more than the head.
  pub catch_up-ends :
      (d : Device) → d.client.killed ≡ false → (catch_up (repeat (suc head)) d).0 ≡ caught_up
  unfolding catch_up
  catch_up-ends d alive =
      page_loop_first (suc head) (record d { client = record d.client { in_pass = true } }) alive
        (omega arith)
