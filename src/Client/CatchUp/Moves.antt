-- ===== src/Client/CatchUp/Moves.antt =====
-- What the other goroutines' handlers keep of a device while a catch-up runs.
use catenary.Prelude.{ℕ, ◌≤◌, ◌≡◌, refl, ◌∙◌, Bool, true, false, List, [], ◌∷◌, arith, All}
use catenary.Client.State.{Message, ServerReady, Journal, Device, LogEntry, Conversation, User}
use catenary.Client.Apply.{
  apply_live, introduce_conversation, introduce_user, on_receipt, on_resync, on_ready,
}
use catenary.Client.Apply.Coverage
use catenary.Client.Apply.Coverage.{Covered, IsCorrect, Brings, apply_page-Covered}
use catenary.Client.CatchUp.{
  Event, message, conversation, user, receipt, resync, ready, pulled, killed, handle, handle_all,
}

-- A journal with no cursor stands at 0.
abbrev pub Seated : Journal → Type 0
Seated j = j.has_cursor ≡ false → j.cursor ≡ 0

-- What every step keeps, for one log entry.
pub record IsGood (e : LogEntry) (d : Device) : Type 0 where
  pub correct : IsCorrect d.client.faults
  pub seated : Seated d.journal
  pub covered : Covered e d.journal

-- What any handler does to the rest: the faults stay, and the journal moves forward.
pub record Moves (d d' : Device) : Type 0 where
  pub faults : d'.client.faults ≡ d.client.faults
  pub seated : Seated d.journal → Seated d'.journal
  pub wipes : d.journal.wipes ≤ d'.journal.wipes
  pub cursor : d.journal.wipes ≡ d'.journal.wipes → d.journal.cursor ≤ d'.journal.cursor

module _ (d : Device) (c : IsCorrect d.client.faults) where
  apply_live-Moves : (m : Message) → Moves d (apply_live d m)
  unfolding apply_live
  apply_live-Moves m = ground arith

  introduce_conversation-Moves : (cv : Conversation) → Moves d (introduce_conversation d cv)
  unfolding introduce_conversation
  introduce_conversation-Moves cv = ground arith

  introduce_user-Moves : (u : User) → Moves d (introduce_user d u)
  unfolding introduce_user
  introduce_user-Moves u = ground arith

  on_receipt-Moves : (u : ℕ) → Moves d (on_receipt d u)
  unfolding on_receipt
  on_receipt-Moves u = ground arith

  on_resync-Moves : Moves d (on_resync d)
  unfolding on_resync
  on_resync-Moves = ground arith

  on_ready-Moves : (r : ServerReady) → Moves d (on_ready d r)
  unfolding on_ready
  on_ready-Moves r = ground arith

  handle-Moves : (ev : Event) → Moves d (handle d ev)
  unfolding handle
  handle-Moves (message m) = apply_live-Moves m
  handle-Moves (conversation cv) = introduce_conversation-Moves cv
  handle-Moves (user u) = introduce_user-Moves u
  handle-Moves (receipt u) = on_receipt-Moves u
  handle-Moves resync = on_resync-Moves
  handle-Moves (ready r) = on_ready-Moves r
  handle-Moves pulled = ground arith
  handle-Moves killed = ground arith

  handle-Covered :
      (e : LogEntry) (ev : Event) → Covered e d.journal → Covered e (handle d ev).journal
  unfolding handle on_resync
  handle-Covered e (message m) v = Coverage.apply_live-Covered d c e v m
  handle-Covered e (conversation cv) v = Coverage.introduce_conversation-Covered d c e v cv
  handle-Covered e (user u) v = Coverage.introduce_user-Covered d c e v u
  handle-Covered e (receipt u) v = Coverage.on_receipt-Covered d c e v u
  handle-Covered e resync v = v
  handle-Covered e (ready r) v = Coverage.on_ready-Covered d c e v r
  handle-Covered e pulled v = v
  handle-Covered e killed v = v

pub Moves-IsCorrect :
    (d d' : Device) → Moves d d' → IsCorrect d.client.faults → IsCorrect d'.client.faults
Moves-IsCorrect d d' m c = rw m.faults c

pub Moves-trans : (d d' d'' : Device) → Moves d d' → Moves d' d'' → Moves d d''
Moves-trans d d' d'' m n = record {
  faults = n.faults ∙ m.faults;
  seated = λ h. n.seated (m.seated h);
  wipes = omega arith;
  cursor = λ h. omega (arith, m.cursor (omega arith), n.cursor (omega arith));
}

pub handle_all-Moves :
    (d : Device) (evs : List Event) → IsCorrect d.client.faults → Moves d (handle_all d evs)
unfolding handle_all
handle_all-Moves d [] c = record {
  faults = refl;
  seated = λ h. h;
  wipes = omega arith;
  cursor = λ h. omega arith;
}
handle_all-Moves d (ev ∷ evs) c =
    let m = handle-Moves d c ev in
    Moves-trans d _ _ m (handle_all-Moves (handle d ev) evs (Moves-IsCorrect d _ m c))

handle_all-Covered :
    (e : LogEntry) (d : Device) (evs : List Event)
    → IsCorrect d.client.faults
    → Covered e d.journal
    → Covered e (handle_all d evs).journal
unfolding handle_all
handle_all-Covered e d [] c v = v
handle_all-Covered e d (ev ∷ evs) c v =
    handle_all-Covered e (handle d ev) evs (Moves-IsCorrect d _ (handle-Moves d c ev) c)
      (handle-Covered d c e ev v)

pub handle_all-IsGood :
    (e : LogEntry) (d : Device) (evs : List Event) → IsGood e d → IsGood e (handle_all d evs)
handle_all-IsGood e d evs v =
    let m = handle_all-Moves d evs v.correct in
    record {
      correct = Moves-IsCorrect d _ m v.correct;
      seated = m.seated v.seated;
      covered = handle_all-Covered e d evs v.correct v.covered;
    }

-- No `ready` among these events, so no wipe.
abbrev pub is_ready : Event → Bool
is_ready (ready r) = true
is_ready _ = false

abbrev pub IsCalm : List Event → Type 0
IsCalm = All (λ ev. is_ready ev ≡ false)

handle-wipes :
    (d : Device) (ev : Event)
    → IsCorrect d.client.faults
    → is_ready ev ≡ false
    → (handle d ev).journal.wipes ≡ d.journal.wipes
unfolding handle apply_live introduce_conversation introduce_user on_receipt on_resync
handle-wipes d (message m) c h = ground arith
handle-wipes d ev c h = ground arith

pub handle_all-wipes :
    (d : Device) (evs : List Event)
    → IsCorrect d.client.faults
    → IsCalm evs
    → (handle_all d evs).journal.wipes ≡ d.journal.wipes
unfolding handle_all
handle_all-wipes d [] c h = refl
handle_all-wipes d (ev ∷ evs) c h =
    handle_all-wipes (handle d ev) evs (Moves-IsCorrect d _ (handle-Moves d c ev) c) h.1
    ∙ handle-wipes d ev c h.0
