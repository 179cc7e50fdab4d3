-- ===== src/Client/Flight.antt =====
-- internal/client/refresh.go and hold.go: one refresh under the single-flight lock, what a refusal of it
-- means, and the two automatic call sites behind the suppressors.
pub mod Verdict
use catenary.Prelude.{
  ℕ, ◌+◌, ◌≡◌, Bool, true, false, ◌&&◌, ◌||◌, not, Option, none, some, ◌==◌, if◌then◌else◌,
}
use catenary.Client.State.{
  Client, Device, Stats, Credential, Token, Time, TerminalKind, not_terminal, terminal_credential,
  empty,
}
use catenary.Client.Journal
use catenary.Client.Journal.{JournalError}
use catenary.Client.Terminal.{stop}
use catenary.Client.Hold.{RefreshHold, refresh_not_held, hold_now, count_held}
use catenary.Client.Refresh.{
  Server, Exchanged, rotated, refused_oldest, chain_moved, exchange, refresh_due,
}

pub data RefreshNeed : Type 0 where
  refresh_not_needed refresh_needed refresh_held : RefreshNeed

-- What refresh returns: nil twice, for a rotation and for a skip, and its errors.
pub data Refreshed : Type 0 where
  refreshed skipped held_back lock_lost was_killed : Refreshed
  terminal : TerminalKind → Refreshed
  refused : Refreshed
  journal_error : JournalError → Refreshed
  not_settled : Exchanged → Refreshed

abbrev pub bump_skipped : Device → Device
bump_skipped d = record d {
  client = record d.client {
    stats = record d.client.stats { refreshes_skipped = d.client.stats.refreshes_skipped + 1 };
  };
}

abbrev pub bump_errors : Device → Device
bump_errors d = record d {
  client = record d.client {
    stats = record d.client.stats { refresh_errors = d.client.stats.refresh_errors + 1 };
  };
}

abbrev pub bump_refreshes : Device → Device
bump_refreshes d = record d {
  client = record d.client {
    stats = record d.client.stats { refreshes = d.client.stats.refreshes + 1 };
  };
}

abbrev pub refresh_token : Option Credential → Token
refresh_token none = empty
refresh_token (some c) = c.refresh_token

-- Client.refused: terminal only if the stored credential is still the one presented.
unfoldable pub on_refused : Device → Credential → Device × Refreshed
unfolding stop
on_refused d presented =
    if not (refresh_token d.journal.credential == presented.refresh_token)
    then (bump_skipped d, skipped)
    else if d.client.faults.never_terminal
    then (bump_errors d, refused)
    else let d' = bump_errors d in
      let c = stop d'.client terminal_credential in (record d' { client = c }, terminal c.terminal)

unfoldable pub rotate_result : Device → Option JournalError → Device × Refreshed
rotate_result d none = (bump_refreshes d, refreshed)
rotate_result d (some e) = (d, journal_error e)

-- Client.rotate, behind the Kill guard, and what follows it.
unfoldable pub settle : Device → Credential → Device × Refreshed
unfolding rotate_result
settle d next =
    if d.client.killed
    then (d, was_killed)
    else let (j, e) = Journal.rotate d.journal next in rotate_result (record d { journal = j }) e

-- The tail of refresh, on what the exchange came to.
unfoldable pub conclude : Exchanged → Device → Credential → Device × Refreshed
unfolding settle on_refused
conclude (rotated next) d held = settle d next
conclude chain_moved d held = (bump_skipped d, skipped)
conclude refused_oldest d held = on_refused d held
conclude other d held = (bump_errors d, not_settled other)

module _ {W : Type 0} (sv : Server W) where
  unfoldable pub run : W → Device → Credential → RefreshNeed → W × Device × Refreshed
  unfolding conclude exchange
  run w d held refresh_not_needed = (w, bump_skipped d, skipped)
  run w d held refresh_held = (w, d, held_back)
  run w d held refresh_needed =
      let (x, d', w') = exchange sv held w d in let (d'', r) = conclude x d' held in (w', d'', r)

  -- refresh under the lock: `still_needed` is asked about the credential as it is now persisted.
  unfoldable pub refresh :
      W → Device → Credential → (Device → Device × RefreshNeed) → W × Device × Refreshed
  unfolding run
  refresh w d held still_needed = let (d', need) = still_needed d in run w d' held need

  -- A hold that is known: the send is counted as held, or `go` runs.
  held_or : RefreshHold → Device → RefreshNeed → Device × RefreshNeed
  held_or refresh_not_held d need = (d, need)
  held_or h d need = (record d { client = count_held d.client h }, refresh_held)

  -- refreshWhenAllowed's closure, run under the lock.
  unfoldable pub allowed :
      Time → (Credential → RefreshNeed) → Credential → Device → Device × RefreshNeed
  unfolding held_or
  allowed now still_needed held d = held_or (hold_now d now) d (still_needed held)

  unfoldable pub when_allowed :
      RefreshHold
      → W
      → Device
      → Credential
      → Time
      → (Credential → RefreshNeed)
      → W × Device × Refreshed
  unfolding refresh allowed
  when_allowed refresh_not_held w d held now still_needed =
      refresh w d held (allowed now still_needed held)
  when_allowed h w d held now still_needed =
      (w, record d { client = count_held d.client h }, held_back)

  -- refreshWhenAllowed: the suppressors before the lock and under it.
  unfoldable pub refresh_when_allowed :
      W → Device → Credential → Time → (Credential → RefreshNeed) → W × Device × Refreshed
  unfolding when_allowed
  refresh_when_allowed w d held now still_needed =
      when_allowed (hold_now d now) w d held now still_needed

  need_if : Bool → RefreshNeed
  need_if true = refresh_needed
  need_if false = refresh_not_needed

  -- refreshAfter401.
  unfoldable pub refresh_after_401 :
      W → Device → Credential → Credential → Time → W × Device × Refreshed
  unfolding refresh_when_allowed need_if
  refresh_after_401 w d held used now =
      refresh_when_allowed w d held now (λ h. need_if (h.access_token == used.access_token))

  -- refreshDueWhenAllowed.
  unfoldable pub refresh_due_when_allowed : W → Device → Credential → Time → W × Device × Refreshed
  unfolding refresh_when_allowed need_if
  refresh_due_when_allowed w d held now =
      if not d.client.refresh_enabled || not (refresh_due held now)
      then (w, d, skipped)
      else refresh_when_allowed w d held now (λ h. need_if (refresh_due h now))
