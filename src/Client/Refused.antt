-- ===== src/Client/Refused.antt =====
-- internal/client/refused.go: a token that Catenary has refused on /sync is not dialed with, and goes
-- out once per refresh hold.
pub mod Carry
pub mod Waits
use catenary.Prelude.{
  ℕ, zero, suc, ◌+◌, ◌≡◌, Bool, true, false, ◌&&◌, ◌||◌, not, Option, none, some, List, [], ◌∷◌,
  ◌==◌, if◌then◌else◌,
}
use catenary.Client.State.{Client, Device, Stats, Token, Time, Credential, empty}
use catenary.Client.Journal.{chain_len}
use catenary.Client.Hold.{read_stamp, backoff_pending, refresh_delay}

-- The access token of the pair that would be presented now.
abbrev pub access_token : Option Credential → Token
access_token none = empty
access_token (some c) = c.access_token

unfoldable pub mark_refused : Client → Token → Client
mark_refused c token =
    if not c.refresh_enabled || token == empty then c else record c { refused_token = token }

-- refusedNow with note: the mark is retired when the pair has changed.
unfoldable pub refused_now : Device → Device × Bool
refused_now d =
    let marked = d.client.refused_token in
    let token = access_token d.journal.credential in
    (
      if not (marked == empty) && not (marked == token)
          then record d { client = record d.client { refused_token = empty } }
          else d,
      not (marked == empty) && marked == token,
    )

unfoldable pub refused_hold_at : Bool → ℕ → Time → Time → Bool
refused_hold_at refused links last_sent now =
    if not refused || links == 0
    then false
    else backoff_pending links (read_stamp last_sent now) now

-- refusedDial: no time in this one.
unfoldable pub refused_dial : Device → Device × Bool
unfolding refused_now
refused_dial d = if d.client.faults.present_refused_token then (d, false) else refused_now d

unfoldable pub refused_hold : Device → Time → Device × Bool
unfolding refused_now refused_hold_at
refused_hold d now =
    if d.client.faults.present_refused_token
    then (d, false)
    else let (d', refused) = refused_now d in
      if refused && d.client.faults.never_present_refused_token
      then (d', true)
      else (d', refused_hold_at refused (chain_len d.journal) d.journal.last_sent now)

pub data Withheld : Type 0 where
  withheld_dial withheld_sync : Withheld

abbrev holding : Withheld → Device → Time → Device × Bool
holding withheld_dial d now = refused_dial d
holding withheld_sync d now = refused_hold (refused_dial d).0 now

unfoldable pub count_withheld : Withheld → Client → Client
count_withheld withheld_dial c = record c {
  stats = record c.stats { dials_withheld = c.stats.dials_withheld + 1 };
}
count_withheld withheld_sync c = record c {
  stats = record c.stats { syncs_withheld = c.stats.syncs_withheld + 1 };
}

-- waitWhileRefused, over the polls that the surroundings give it: at each one the time, whether the
-- context has ended, and, if the poll waits, what the other contexts do to the device meanwhile.
pub record Poll : Type 0 where
  pub now : Time
  pub ended : Bool
  pub others : Device → Device
  pub cut : Bool  -- the context ended during the pause

pub data Waited : Type 0 where
  carry_on context_ended still_waiting : Waited

unfoldable pub poll_result : Bool → Waited
poll_result true = context_ended
poll_result false = carry_on

unfoldable pub wait_while_refused : Withheld → List Poll → Device → Waited × Device
unfolding count_withheld poll_result refused_dial refused_hold
wait_while_refused what [] d = (still_waiting, d)
wait_while_refused what (p ∷ ps) d =
    let (d1, held) = holding what d p.now in
    let d2 = p.others (record d1 { client = count_withheld what d1.client }) in
    let rest = wait_while_refused what ps d2 in
    if not held then (poll_result p.ended, d1) else if p.cut then (context_ended, d2) else rest

-- Status.NextRefreshAt, 0 for none.
unfoldable pub next_refresh_at : Device → Time → Time
next_refresh_at d now =
    let stamp = read_stamp d.journal.last_sent now in
    if chain_len d.journal == 0 || stamp == 0
    then 0
    else stamp + refresh_delay (chain_len d.journal)
