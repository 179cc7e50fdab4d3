-- ===== src/Hub/Outbox.antt =====
-- What an enqueue does to each session: the table of internal/hub/hub.go, session by session.
use catenary.Prelude.{
  ℕ, ◌+◌, ◌≤◌, ◌≡◌, refl, sym, ap, ◌∙◌, ==→eq, ==_refl, Bool, true, false, Option, none, some, List,
  [], ◌∷◌, ◌++◌, ◌==◌, ltb, leb, length, length-append, is_some, has, IsDistinct, split,
  if◌then◌else◌, arith,
}
use mathlib.Core.Path.{subst}
use mathlib.Core.List.{append-nil, append_assoc}
use catenary.Hub.Sessions.{
  Session, Hub, ServerFrame, find, without, put, take_off, remove_locked, enqueue_on,
  enqueue_locked, outbox_bound, request_close, push_all,
}

abbrev pub ids : List Session → List ℕ
ids [] = []
ids (s ∷ ss) = s.id ∷ ids ss

-- No two sessions of the table have one number.
abbrev pub IsTable : Hub → Type 0
IsTable h = IsDistinct (ids h.sessions)

-- What one session makes of a frame: its outbox takes it, or the session goes.
abbrev pub receive : ServerFrame → Option Session → Option Session
receive f none = none
receive f (some s) =
    if ltb (length s.out) outbox_bound then some (record s { out = s.out ++ f ∷ [] }) else none

find-has : (i : ℕ) (ss : List Session) → is_some (find i ss) ≡ has i (ids ss)
unfolding find
find-has i [] = refl
find-has i (s ∷ ss) = ground (arith, find-has i ss)

absent-find : (i : ℕ) (ss : List Session) → has i (ids ss) ≡ false → find i ss ≡ none
unfolding find
absent-find i [] h = refl
absent-find i (s ∷ ss) h = ground (arith, absent-find i ss)

named : ℕ → Option Session → Bool
named i none = true
named i (some s) = s.id == i

find-named : (i : ℕ) (ss : List Session) → named i (find i ss) ≡ true
unfolding find named
find-named i [] = refl
find-named i (s ∷ ss) = ground (arith, find-named i ss)

pub find_id : (i : ℕ) (s : Session) (ss : List Session) → find i ss ≡ some s → s.id ≡ i
unfolding named
find_id i s ss h = ==→eq s.id i (sym (ap (named i) h) ∙ find-named i ss)

pub find-without :
    (j i : ℕ) (ss : List Session)
    → IsDistinct (ids ss)
    → find j (without i ss) ≡ (if i == j then none else find j ss)
unfolding find without
find-without j i [] d = ground arith
find-without j i (s ∷ ss) d = ground (arith, find-without j i ss d.1, absent-find j ss)

find-put :
    (j i : ℕ) (x : Session) (ss : List Session)
    → x.id ≡ i
    → find j (put i x ss)
      ≡ (if i == j then (if has i (ids ss) then some x else none) else find j ss)
unfolding find put
find-put j i x [] e = ground arith
find-put j i x (s ∷ ss) e = ground (arith, find-put j i x ss e)

pub ids-put : (i : ℕ) (x : Session) (ss : List Session) → x.id ≡ i → ids (put i x ss) ≡ ids ss
unfolding put
ids-put i x [] e = refl
ids-put i x (s ∷ ss) e = ground (arith, ids-put i x ss e)

without-has :
    (j i : ℕ) (ss : List Session) → has j (ids ss) ≡ false → has j (ids (without i ss)) ≡ false
unfolding without
without-has j i [] h = refl
without-has j i (s ∷ ss) h = ground (arith, without-has j i ss)

pub without-IsDistinct :
    (i : ℕ) (ss : List Session) → IsDistinct (ids ss) → IsDistinct (ids (without i ss))
unfolding without
without-IsDistinct i [] d = tt
without-IsDistinct i (s ∷ ss) d =
    ground (arith, without-IsDistinct i ss d.1, without-has s.id i ss d.0)

pub same-find : (i j : ℕ) (ss : List Session) → (i == j) ≡ true → find j ss ≡ find i ss
same-find i j ss e = ap (λ x. find x ss) (sym (==→eq i j e))

removed_sessions :
    (i : ℕ) (s : Session) (h : Hub)
    → find i h.sessions ≡ some s
    → (remove_locked i h).0.sessions ≡ without i h.sessions
unfolding remove_locked take_off
removed_sessions i s h e = ground (arith, e)

has_found : (i : ℕ) (s : Session) (ss : List Session) → find i ss ≡ some s → has i (ids ss) ≡ true
has_found i s ss e = sym (find-has i ss) ∙ ap is_some e

enqueue_on-find :
    (j i : ℕ) (f : ServerFrame) (o : Option Session) (h : Hub)
    → IsTable h
    → find i h.sessions ≡ o
    → find j (enqueue_on i f o h).0.sessions ≡ (if i == j then receive f o else find j h.sessions)
unfolding enqueue_on request_close
enqueue_on-find j i f none h d e = ground (arith, same-find i j h.sessions)
enqueue_on-find j i f (some s) h d e =
    let x = record s { out = s.out ++ f ∷ [] } in
    ground (
      arith,
      find-put j i x h.sessions (find_id i s h.sessions e),
      has_found i s h.sessions e,
      removed_sessions i s h e,
      find-without j i h.sessions d,
    )

enqueue_on-IsTable :
    (i : ℕ) (f : ServerFrame) (o : Option Session) (h : Hub)
    → IsTable h
    → find i h.sessions ≡ o
    → IsTable (enqueue_on i f o h).0
unfolding enqueue_on request_close
enqueue_on-IsTable i f none h d e = d
enqueue_on-IsTable i f (some s) h d e =
    split (λ (x : Hub × Bool). IsTable x.0) (ltb (length s.out) outbox_bound)
      (λ _.
        subst IsDistinct
          (sym
            (ids-put i (record s { out = s.out ++ f ∷ [] }) h.sessions (find_id i s h.sessions e)))
          d)
      (λ _.
        subst (λ x. IsDistinct (ids x)) (sym (removed_sessions i s h e))
          (without-IsDistinct i h.sessions d))

-- An enqueue is, session by session, the outbox taking the frame or the session going.
pub enqueue_locked-find :
    (j i : ℕ) (f : ServerFrame) (h : Hub)
    → IsTable h
    → find j (enqueue_locked i f h).0.sessions
      ≡ (if i == j then receive f (find i h.sessions) else find j h.sessions)
unfolding enqueue_locked
enqueue_locked-find j i f h d = enqueue_on-find j i f (find i h.sessions) h d refl

pub enqueue_locked-IsTable :
    (i : ℕ) (f : ServerFrame) (h : Hub) → IsTable h → IsTable (enqueue_locked i f h).0
unfolding enqueue_locked
enqueue_locked-IsTable i f h d = enqueue_on-IsTable i f (find i h.sessions) h d refl

-- The same for one session, frame by frame.
abbrev pub receive_all : List ServerFrame → Option Session → Option Session
receive_all [] o = o
receive_all (f ∷ fs) o = receive_all fs (receive f o)

pub push_all-IsTable :
    (i : ℕ) (fs : List ServerFrame) (h : Hub) → IsTable h → IsTable (push_all i fs h)
push_all-IsTable i [] h d = d
push_all-IsTable i (f ∷ fs) h d =
    push_all-IsTable i fs (enqueue_locked i f h).0 (enqueue_locked-IsTable i f h d)

push_all-find_same :
    (i : ℕ) (fs : List ServerFrame) (h : Hub)
    → IsTable h
    → find i (push_all i fs h).sessions ≡ receive_all fs (find i h.sessions)
push_all-find_same i [] h d = refl
push_all-find_same i (f ∷ fs) h d =
    push_all-find_same i fs (enqueue_locked i f h).0 (enqueue_locked-IsTable i f h d)
    ∙ ap (receive_all fs) (ground (arith, enqueue_locked-find i i f h d, ==_refl i))

push_all-find_other :
    (j i : ℕ) (fs : List ServerFrame) (h : Hub)
    → IsTable h
    → (i == j) ≡ false
    → find j (push_all i fs h).sessions ≡ find j h.sessions
push_all-find_other j i [] h d n = refl
push_all-find_other j i (f ∷ fs) h d n =
    push_all-find_other j i fs (enqueue_locked i f h).0 (enqueue_locked-IsTable i f h d) n
    ∙ ground (arith, enqueue_locked-find j i f h d)

pub push_all-find :
    (j i : ℕ) (fs : List ServerFrame) (h : Hub)
    → IsTable h
    → find j (push_all i fs h).sessions
      ≡ (if i == j then receive_all fs (find j h.sessions) else find j h.sessions)
push_all-find j i fs h d =
    split (λ o. find j (push_all i fs h).sessions ≡ o) (i == j)
      (λ e.
        subst (λ x. find x (push_all i fs h).sessions ≡ receive_all fs (find x h.sessions))
          (==→eq i j e) (push_all-find_same i fs h d))
      (push_all-find_other j i fs h d)

pub receive_all-none : (fs : List ServerFrame) → receive_all fs none ≡ none
receive_all-none [] = refl
receive_all-none (f ∷ fs) = receive_all-none fs

-- All of the frames, in order, or the session goes.
pub receive_all-closed :
    (fs : List ServerFrame) (s : Session)
    → length s.out ≤ outbox_bound
    → receive_all fs (some s) ≡ (
        if leb (length s.out + length fs) outbox_bound
        then some (record s { out = s.out ++ fs })
        else none)
receive_all-closed [] s l = ground (arith, ap (λ o. some (record s { out = o })) (append-nil s.out))
receive_all-closed (f ∷ fs) s l =
    let x = record s { out = s.out ++ f ∷ [] } in
    ground (
      arith,
      receive_all-closed fs x,
      receive_all-none fs,
      length-append s.out (f ∷ []),
      ap (λ o. some (record s { out = o })) (append_assoc s.out (f ∷ []) fs),
    )

pub receive_all-append :
    (fs gs : List ServerFrame) (o : Option Session)
    → receive_all (fs ++ gs) o ≡ receive_all gs (receive_all fs o)
receive_all-append [] gs o = refl
receive_all-append (f ∷ fs) gs o = receive_all-append fs gs (receive f o)
