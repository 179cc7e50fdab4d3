-- ===== src/Hub/Fanout/Members.antt =====
-- internal/hub/hub.go, OnNotify: the fan-out, session by session.
use catenary.Prelude.{
  ℕ, ◌+◌, ◌≤◌, ◌≡◌, refl, sym, ap, ◌∙◌, ==→eq, Bool, true, false, Option, none, some, List, [], ◌∷◌,
  ◌++◌, ◌==◌, ltb, leb, length, keep, has, IsDistinct, split, if◌then◌else◌, arith,
}
use mathlib.Core.Path.{subst}
use catenary.Hub.Sessions.{Session, Hub, ServerFrame, find, outbox_bound, Uuid, push_all}
use catenary.Hub.Outbox.{
  ids, IsTable, receive, receive_all, receive_all-closed, receive_all-none, receive_all-append,
  push_all-find, push_all-IsTable,
}
use catenary.Hub.Fanout.{Member, FanoutMessage, to_sessions, sessions_of, frames_for, fan_out}

-- What the whole fan-out has for the sessions of this user.
abbrev pub offered : FanoutMessage → Uuid → List Member → List ServerFrame
offered fm u [] = []
offered fm u (m ∷ ms) =
    let rest = offered fm u ms in if m.user_id == u then frames_for fm m ++ rest else rest

pub to_sessions-IsTable :
    (ss : List Session) (fs : List ServerFrame) (h : Hub)
    → IsTable h
    → IsTable (to_sessions ss fs h)
to_sessions-IsTable [] fs h d = d
to_sessions-IsTable (s ∷ ss) fs h d =
    to_sessions-IsTable ss fs (push_all s.id fs h) (push_all-IsTable s.id fs h d)

same-has : (i j : ℕ) (xs : List ℕ) → (j == i) ≡ true → has j xs ≡ has i xs
same-has i j xs e = ap (λ x. has x xs) (==→eq j i e)

to_sessions-find :
    (i : ℕ) (ss : List Session) (fs : List ServerFrame) (h : Hub)
    → IsTable h
    → IsDistinct (ids ss)
    → find i (to_sessions ss fs h).sessions
      ≡ (if has i (ids ss) then receive_all fs (find i h.sessions) else find i h.sessions)
to_sessions-find i [] fs h d n = refl
to_sessions-find i (s ∷ ss) fs h d n = ground (
  arith,
  to_sessions-find i ss fs (push_all s.id fs h) (push_all-IsTable s.id fs h d) n.1,
  push_all-find i s.id fs h d,
  same-has i s.id (ids ss),
  n.0,
)

-- Whether this is a session of the user.
unfoldable pub owned : Uuid → Option Session → Bool
owned u none = false
owned u (some s) = s.user_id == u

absent-keep :
    (i : ℕ) (u : Uuid) (ss : List Session)
    → has i (ids ss) ≡ false
    → has i (ids (keep (λ s. s.user_id == u) ss)) ≡ false
absent-keep i u [] h = refl
absent-keep i u (s ∷ ss) h = ground (arith, absent-keep i u ss)

keep-has :
    (i : ℕ) (u : Uuid) (ss : List Session)
    → IsDistinct (ids ss)
    → has i (ids (keep (λ s. s.user_id == u) ss)) ≡ owned u (find i ss)
unfolding owned find
keep-has i u [] d = refl
keep-has i u (s ∷ ss) d =
    ground (arith, keep-has i u ss d.1, absent-keep i u ss, same-has i s.id (ids ss), d.0)

keep-IsDistinct :
    (u : Uuid) (ss : List Session)
    → IsDistinct (ids ss)
    → IsDistinct (ids (keep (λ s. s.user_id == u) ss))
keep-IsDistinct u [] d = tt
keep-IsDistinct u (s ∷ ss) d = ground (arith, keep-IsDistinct u ss d.1, absent-keep s.id u ss d.0)

owned-receive_all :
    (u : Uuid) (fs : List ServerFrame) (o : Option Session)
    → owned u o ≡ false
    → owned u (receive_all fs o) ≡ false
unfolding owned
owned-receive_all u [] o e = e
owned-receive_all u (f ∷ fs) none e = owned-receive_all u fs none e
owned-receive_all u (f ∷ fs) (some s) e = owned-receive_all u fs (receive f (some s)) (ground arith)

pub member-find :
    (i : ℕ) (u : Uuid) (fs : List ServerFrame) (h : Hub)
    → IsTable h
    → find i (to_sessions (sessions_of u h) fs h).sessions ≡ (
        if owned u (find i h.sessions)
        then receive_all fs (find i h.sessions)
        else find i h.sessions)
member-find i u fs h d =
    subst
      (λ b.
        find i (to_sessions (sessions_of u h) fs h).sessions
        ≡ (if b then receive_all fs (find i h.sessions) else find i h.sessions))
      (keep-has i u h.sessions d)
      (to_sessions-find i (sessions_of u h) fs h d (keep-IsDistinct u h.sessions d))

-- The session, if it is there, is of the user.
unfoldable pub Belongs : Uuid → Option Session → Type 0
Belongs u none = Unit
Belongs u (some s) = s.user_id ≡ u

pub receive_all-Belongs :
    (u : Uuid) (fs : List ServerFrame) (o : Option Session)
    → Belongs u o
    → Belongs u (receive_all fs o)
unfolding Belongs
receive_all-Belongs u [] o b = b
receive_all-Belongs u (f ∷ fs) none b = receive_all-Belongs u fs none b
receive_all-Belongs u (f ∷ fs) (some s) b =
    receive_all-Belongs u fs (receive f (some s))
      (split (Belongs u) (ltb (length s.out) outbox_bound) (λ _. b) (λ _. tt))

-- One member's turn.
turn : Uuid → List ServerFrame → Option Session → Option Session
unfolding owned
turn v fs o = if owned v o then receive_all fs o else o

turn-Belongs :
    (u v : Uuid) (fs : List ServerFrame) (o : Option Session)
    → Belongs u o
    → Belongs u (turn v fs o)
unfolding turn
turn-Belongs u v fs o b = split (Belongs u) (owned v o) (λ _. receive_all-Belongs u fs o b) (λ _. b)

turn-offered :
    (u v : Uuid) (fs rest : List ServerFrame) (o : Option Session)
    → Belongs u o
    → receive_all rest (turn v fs o) ≡ receive_all (if v == u then fs ++ rest else rest) o
unfolding turn Belongs
turn-offered u v fs rest none b =
    ground (arith, receive_all-none rest, receive_all-none (fs ++ rest))
turn-offered u v fs rest (some s) b = ground (arith, receive_all-append fs rest (some s))

fan_out-find :
    (fm : FanoutMessage) (ms : List Member) (i : ℕ) (u : Uuid) (h : Hub)
    → IsTable h
    → Belongs u (find i h.sessions)
    → find i (fan_out fm ms h).sessions ≡ receive_all (offered fm u ms) (find i h.sessions)
unfolding fan_out turn
fan_out-find fm [] i u h d b = refl
fan_out-find fm (m ∷ ms) i u h d b =
    let fs = frames_for fm m in
    let h' = to_sessions (sessions_of m.user_id h) fs h in
    let e = member-find i m.user_id fs h d in
    fan_out-find fm ms i u h' (to_sessions-IsTable (sessions_of m.user_id h) fs h d)
      (subst (Belongs u) (sym e) (turn-Belongs u m.user_id fs (find i h.sessions) b))
    ∙ ap (receive_all (offered fm u ms)) e
    ∙ turn-offered u m.user_id fs (offered fm u ms) (find i h.sessions) b

-- After the fan-out of a message, a session that was on the table has everything that the list of
-- members has for its user queued behind what it had, in order and once, if all of it fits in the
-- outbox; if not, it is off the table. Sessions have different numbers, and the outbox was within
-- its bound.
pub fan_out_complete :
    (fm : FanoutMessage) (i : ℕ) (s : Session) (h : Hub)
    → IsTable h
    → find i h.sessions ≡ some s
    → length s.out ≤ outbox_bound
    → let frames = offered fm s.user_id fm.members in
      find i (fan_out fm fm.members h).sessions ≡ (
        if leb (length s.out + length frames) outbox_bound
        then some (record s { out = s.out ++ frames })
        else none)
unfolding Belongs
fan_out_complete fm i s h d f l =
    fan_out-find fm fm.members i s.user_id h d (subst (Belongs s.user_id) (sym f) refl)
    ∙ ap (receive_all (offered fm s.user_id fm.members)) f
    ∙ receive_all-closed (offered fm s.user_id fm.members) s l
