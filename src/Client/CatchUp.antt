-- ===== src/Client/CatchUp.antt =====
-- internal/client/client.go, catchUp: paging over /sync until obligation 3 is met, with everything
-- that other goroutines may do to the device between its lock sections.
pub mod Moves
pub mod Complete
pub mod Gap
pub mod Ends
use catenary.Prelude.{
  ℕ, ◌+◌, ◌≡◌, Bool, true, false, ◌&&◌, ◌||◌, not, Option, none, some, List, [], ◌∷◌, ◌==◌,
  if◌then◌else◌,
}
use catenary.Client.State.{
  Message, Conversation, User, SyncResponse, ServerReady, Client, Device, Stats, Uuid,
}
use catenary.Client.Apply.{
  apply_live, introduce_conversation, introduce_user, on_receipt, on_resync, on_ready, trigger,
  trigger_locked, apply_page,
}

-- What reaches the device beside the catch-up.
pub data Event : Type 0 where
  message : Message → Event
  conversation : Conversation → Event
  user : User → Event
  receipt : Uuid → Event
  resync : Event
  ready : ServerReady → Event
  pulled : Event  -- CatchUp, and the dial's own trigger
  killed : Event

unfoldable pub handle : Device → Event → Device
unfolding trigger_locked
handle d (message m) = apply_live d m
handle d (conversation cv) = introduce_conversation d cv
handle d (user u) = introduce_user d u
handle d (receipt u) = on_receipt d u
handle d resync = on_resync d
handle d (ready r) = on_ready d r
handle d pulled = trigger d
handle d killed = record d { client = record d.client { killed = true } }

unfoldable pub handle_all : Device → List Event → Device
handle_all d [] = d
handle_all d (e ∷ es) = handle_all (handle d e) es

-- The surroundings of one request: what happens before the loop reads the trigger count, between that
-- read and that of the epoch and the cursor, what happens while the request is in flight, the server's
-- answer to the cursor that it carried (none for an error), and what happens between the landing of the
-- page and the decision on it.
pub record Round : Type 0 where
  pub before : List Event
  pub between : List Event
  pub in_flight : List Event
  pub serve : ℕ → Option SyncResponse
  pub landed : List Event

-- catchUp returns nil for the first two: the pass is done, or the client was killed.
pub data Result : Type 0 where
  caught_up abandoned failed running : Result

-- The `after` of the request: 0 on SkipWipe's re-sync, else the page to continue from, else the cursor.
abbrev pub after_of : Bool → Option ℕ → Device → ℕ
after_of true next d = 0
after_of false none d = d.journal.cursor
after_of false (some n) d = n

abbrev pub count_page : Client → Client
count_page c = record c { stats = record c.stats { pages = c.stats.pages + 1 } }

-- What the loop does next: end, or ask again from here.
pub data Decision : Type 0 where
  done : Decision
  ask : Option ℕ → Decision

-- The switch, under the client's lock.
unfoldable pub decide : Client → Bool → SyncResponse → ℕ → Decision
decide c applied p issued =
    if not applied
    then ask none
    else if p.has_more
    then ask (some p.log_seq)
    else if issued == c.gen || c.faults.end_catch_up_early
    then done
    else ask none

-- The reads before the request: whether this one starts at 0, and the device behind `between`.
abbrev pub starts_at_0 : Device → Option ℕ → Bool
starts_at_0 d none = d.client.from0
starts_at_0 d (some n) = false

abbrev pub before_request : Device → Option ℕ → Round → Device
before_request d next r =
    handle_all
      (record d {
        client = record d.client { from0 = if starts_at_0 d next then false else d.client.from0 };
      })
      r.between

-- A page that arrived: applied, then whatever happens, then the count.
abbrev pub land : Device → SyncResponse → ℕ → List Event → Device
land d p epoch landed =
    let d' = handle_all (apply_page d p epoch).0 landed in
    record d' { client = count_page d'.client }

unfoldable pub finish : Device → Device
finish d = record d { client = record d.client { done_gen = d.client.gen } }

-- After the switch: nil if the pass is done or the client was killed, else the next request.
unfoldable pub proceed : (Option ℕ → Device → Result × Device) → Decision → Device → Result × Device
unfolding finish
proceed next done d = (caught_up, finish d)
proceed next (ask from) d = if d.client.killed then (abandoned, d) else next from d

-- What follows the answer to a request, given the epoch and the trigger count that were read.
unfoldable pub receive :
    (Option ℕ → Device → Result × Device)
    → Option SyncResponse
    → Device
    → ℕ
    → List Event
    → ℕ
    → Result × Device
unfolding proceed decide handle_all
receive next none d epoch landed issued = (failed, d)
receive next (some p) d epoch landed issued =
    let d' = land d p epoch landed in
    proceed next (decide d'.client (apply_page d p epoch).1 p issued) d'

-- The loop, over the rounds that the surroundings give it; `next` is none for -1.
unfoldable pub page_loop : List Round → Option ℕ → Device → Result × Device
unfolding receive handle_all
page_loop [] next d = (running, d)
page_loop (r ∷ rs) next d =
    let d0 = handle_all d r.before in
    let d1 = before_request d0 next r in
    receive (page_loop rs) (r.serve (after_of (starts_at_0 d0 next) next d1))
      (handle_all d1 r.in_flight) d1.journal.wipes r.landed d0.client.gen

-- catchUp: the loop between the two writes of inPass.
unfoldable pub catch_up : List Round → Device → Result × Device
unfolding page_loop
catch_up rs d =
    let (result, d') =
      page_loop rs none (record d { client = record d.client { in_pass = true } }) in
    (result, record d' { client = record d'.client { in_pass = false } })
