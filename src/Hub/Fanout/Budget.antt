-- ===== src/Hub/Fanout/Budget.antt =====
-- internal/hub/hub.go, onReadNotify: what the budget of a batch lets through.
use catenary.Prelude.{
  ℕ, ◌+◌, ◌≤◌, ◌≡◌, refl, sym, ap, true, false, Option, none, some, List, [], ◌∷◌, ◌==◌, ltb, leb,
  length, length-append, lookup, insert, lookup-insert, arith, split, Bool-cases, inl, inr,
  if◌then◌else◌, ==→eq,
}
use mathlib.Core.Path.{subst}
use catenary.Hub.Sessions.{Hub, Uuid, Session, find, outbox_bound}
use catenary.Hub.Outbox.{IsTable, receive}
use catenary.Hub.Fanout.{
  holds, ReadBurst, ReadMessage, read_notify_cap, spent_of, read_one, read_batched, on_read_notify,
  budget_locked, emit, read_frame, is_empty, sessions_of,
}
use catenary.Hub.Fanout.Members.{
  owned, member-find, Belongs, receive_all-Belongs, to_sessions-IsTable,
}

-- No author has spent more than the cap.
abbrev pub IsBudget : ReadBurst → Type 0
IsBudget b = (u : Uuid) → spent_of u b ≤ read_notify_cap

read_one-IsBudget :
    (m : ReadMessage) (x : ReadBurst × Hub) → IsBudget x.0 → IsBudget (read_one m x).0
unfolding read_one
read_one-IsBudget m (b, h) g u =
    ground
      (arith, lookup-insert m.author_id u (spent_of m.author_id b + 1) b.spent, g u, g m.author_id)

read_batched-IsBudget :
    (ms : List ReadMessage) (x : ReadBurst × Hub) → IsBudget x.0 → IsBudget (read_batched ms x).0
unfolding read_batched
read_batched-IsBudget [] x g = g
read_batched-IsBudget (m ∷ ms) x g =
    read_batched-IsBudget ms (read_one m x) (read_one-IsBudget m x g)

budget_locked-IsBudget :
    (b : Uuid) (burst : ReadBurst) → IsBudget burst → IsBudget (budget_locked b burst)
unfolding budget_locked lookup
budget_locked-IsBudget b burst g u =
    split (λ (x : ReadBurst). spent_of u x ≤ read_notify_cap) (holds burst.batch b) (λ _. g u)
      (λ _. ground arith)

-- The notifications of one batch, one after the other: the messages of each, none if the read failed.
abbrev pub notifications :
    Uuid → List (Option (List ReadMessage)) → ReadBurst × Hub → ReadBurst × Hub
notifications b [] x = x
notifications b (ms ∷ rest) x = notifications b rest (on_read_notify (some b) ms x)

-- The session, if it is still there, has no more than so many frames queued.
Fits : ℕ → Option Session → Type 0
Fits n none = Unit
Fits n (some s) = length s.out ≤ n

Fits-mono : (n k : ℕ) (o : Option Session) → n ≤ k → Fits n o → Fits k o
unfolding Fits
Fits-mono n k none l f = tt
Fits-mono n k (some s) l f = omega (arith, l, f)

receive-Fits :
    (n : ℕ) (m : ReadMessage) (o : Option Session)
    → Fits n o
    → Fits (n + 1) (receive (read_frame m) o)
unfolding Fits
receive-Fits n m none f = tt
receive-Fits n m (some s) f =
    split (Fits (n + 1)) (ltb (length s.out) outbox_bound)
      (λ _. omega (arith, f, length-append s.out (read_frame m ∷ []))) (λ _. tt)

-- The budget after one more message of an author.
abbrev pub charge : ReadMessage → ReadBurst → ReadBurst
charge m burst = record burst {
  spent = insert m.author_id (spent_of m.author_id burst + 1) burst.spent;
}

charge-spent_of :
    (u : Uuid) (m : ReadMessage) (burst : ReadBurst)
    → spent_of u (charge m burst)
      ≡ (if m.author_id == u then spent_of m.author_id burst + 1 else spent_of u burst)
charge-spent_of u m burst =
    ground (arith, lookup-insert m.author_id u (spent_of m.author_id burst + 1) burst.spent)

-- The budget that the next notification of the batch meets.
abbrev pub next_budget : Uuid → ReadBurst × Hub → ReadBurst × Hub
next_budget b (burst, h) = (budget_locked b burst, h)

module _ (i : ℕ) (u : Uuid) (k : ℕ) where
  -- What the messages of a batch keep: the session has room for what its user has yet to spend.
  record IsKept (x : ReadBurst × Hub) : Type 0 where
    table : IsTable x.1
    belongs : Belongs u (find i x.1.sessions)
    budget : IsBudget x.0
    fits : Fits (k + spent_of u x.0) (find i x.1.sessions)

  emitted-find :
      (m : ReadMessage) (h : Hub)
      → IsTable h
      → find i (emit m h).sessions ≡ (
          if owned m.author_id (find i h.sessions)
          then receive (read_frame m) (find i h.sessions)
          else find i h.sessions)
  unfolding emit
  emitted-find m h t = member-find i m.author_id (read_frame m ∷ []) h t

  owned-Belongs : (v : Uuid) (o : Option Session) → Belongs u o → owned v o ≡ true → v ≡ u
  unfolding owned Belongs
  owned-Belongs v none b h = absurd (ground (arith, h))
  owned-Belongs v (some s) b h = ground (arith, b, h)

  emit-Fits :
      (m : ReadMessage) (burst : ReadBurst) (h : Hub)
      → IsKept (burst, h)
      → Fits (k + spent_of u (charge m burst)) (find i (emit m h).sessions)
  emit-Fits m burst h g =
      let o = find i h.sessions in
      let n = k + spent_of u (charge m burst) in
      let spent = charge-spent_of u m burst in
      subst (Fits n) (sym (emitted-find m h g.table)) (
        split (Fits n) (owned m.author_id o)
          (λ mine.
            let same = owned-Belongs m.author_id o g.belongs mine in
            Fits-mono (k + spent_of u burst + 1) n (receive (read_frame m) o)
              (ground (arith, spent, same, ap (λ v. spent_of v burst) same))
              (receive-Fits (k + spent_of u burst) m o g.fits))
          (λ _.
            Fits-mono (k + spent_of u burst) n o
              (elim (Bool-cases (m.author_id == u)) [
                | inl same ↦
                    ground
                      (arith, spent, same, ap (λ v. spent_of v burst) (==→eq m.author_id u same))
                | inr other ↦ ground (arith, spent, other)
              ])
              g.fits))

  emit-Belongs :
      (m : ReadMessage) (h : Hub)
      → IsTable h
      → Belongs u (find i h.sessions)
      → Belongs u (find i (emit m h).sessions)
  emit-Belongs m h t b = subst (Belongs u) (sym (emitted-find m h t)) (
      split (Belongs u) (owned m.author_id (find i h.sessions))
        (λ _. receive_all-Belongs u (read_frame m ∷ []) (find i h.sessions) b) (λ _. b))

  emit-IsTable : (m : ReadMessage) (h : Hub) → IsTable h → IsTable (emit m h)
  unfolding emit
  emit-IsTable m h t = to_sessions-IsTable (sessions_of m.author_id h) (read_frame m ∷ []) h t

  read_one-IsKept : (m : ReadMessage) (x : ReadBurst × Hub) → IsKept x → IsKept (read_one m x)
  unfolding read_one
  read_one-IsKept m (burst, h) g =
      split IsKept (is_empty (sessions_of m.author_id h)) {x = (burst, h)} (λ _. g)
        (λ _.
          split IsKept (leb read_notify_cap (spent_of m.author_id burst)) {x = (burst, h)}
            {y = (charge m burst, emit m h)} (λ _. g)
            (λ below. record {
              table = emit-IsTable m h g.table;
              belongs = emit-Belongs m h g.table g.belongs;
              budget = λ v.
                  ground
                    (arith, charge-spent_of v m burst, below, g.budget v, g.budget m.author_id);
              fits = emit-Fits m burst h g;
            }))

  read_batched-IsKept :
      (ms : List ReadMessage) (x : ReadBurst × Hub) → IsKept x → IsKept (read_batched ms x)
  unfolding read_batched
  read_batched-IsKept [] x g = g
  read_batched-IsKept (m ∷ ms) x g = read_batched-IsKept ms (read_one m x) (read_one-IsKept m x g)

  read_one-holds :
      (b : Uuid) (m : ReadMessage) (x : ReadBurst × Hub)
      → holds x.0.batch b ≡ true
      → holds (read_one m x).0.batch b ≡ true
  unfolding read_one
  read_one-holds b m (burst, h) e = ground (arith, e)

  read_batched-holds :
      (b : Uuid) (ms : List ReadMessage) (x : ReadBurst × Hub)
      → holds x.0.batch b ≡ true
      → holds (read_batched ms x).0.batch b ≡ true
  unfolding read_batched
  read_batched-holds b [] x e = e
  read_batched-holds b (m ∷ ms) x e =
      read_batched-holds b ms (read_one m x) (read_one-holds b m x e)

  budget_locked_held :
      (b : Uuid) (x : ReadBurst × Hub)
      → holds x.0.batch b ≡ true
      → IsKept x
      → IsKept (next_budget b x)
  unfolding budget_locked
  budget_locked_held b (burst, h) e g = rw e g

  budget_locked-holds :
      (b : Uuid) (burst : ReadBurst) → holds (budget_locked b burst).batch b ≡ true
  unfolding budget_locked
  budget_locked-holds b burst = ground arith

  on_read_notify-IsKept :
      (b : Uuid) (ms : Option (List ReadMessage)) (x : ReadBurst × Hub)
      → IsKept (next_budget b x)
      → IsKept (next_budget b (on_read_notify (some b) ms x))
  unfolding on_read_notify
  on_read_notify-IsKept b none x g = g
  on_read_notify-IsKept b (some ms) (burst, h) g =
      budget_locked_held b _
        (read_batched-holds b ms (budget_locked b burst, h) (budget_locked-holds b burst))
        (read_batched-IsKept ms (budget_locked b burst, h) g)

  notifications-IsKept :
      (b : Uuid) (ls : List (Option (List ReadMessage))) (x : ReadBurst × Hub)
      → IsKept (next_budget b x)
      → IsKept (next_budget b (notifications b ls x))
  notifications-IsKept b [] x g = g
  notifications-IsKept b (ms ∷ ls) x g =
      notifications-IsKept b ls (on_read_notify (some b) ms x) (on_read_notify-IsKept b ms x g)

-- The read notifications of one batch, however many and whatever they re-emit, queue at most 64
-- frames for any session: one that was on the table, and still is after them, has no more than
-- that in its outbox beyond what it had. The batch is a new one, sessions have different numbers,
-- and nothing else falls between the notifications.
pub notifications-bound :
    (b : Uuid) (ls : List (Option (List ReadMessage))) (burst : ReadBurst) (h : Hub) (i : ℕ)
    (s y : Session)
    → holds burst.batch b ≡ false
    → IsTable h
    → find i h.sessions ≡ some s
    → find i (notifications b ls (burst, h)).1.sessions ≡ some y
    → length y.out ≤ length s.out + 64
unfolding budget_locked Fits Belongs lookup
notifications-bound b ls burst h i s y new t f after =
    let start =
      notifications-IsKept i s.user_id (length s.out) b ls (burst, h)
        (rw new (record {
          table = t;
          belongs = subst (Belongs s.user_id) (sym f) refl;
          budget = λ u. omega arith;
          fits = subst (Fits (length s.out + 0)) (sym f) (omega arith);
        })) in
    let end = notifications b ls (burst, h) in
    let kept =
      subst (Fits (length s.out + spent_of s.user_id (next_budget b end).0)) after start.fits in
    omega (arith, kept, start.budget s.user_id)
