-- ===== src/Client/Flight/Verdict.antt =====
-- internal/client/refresh.go and hold.go: what a refresh's outcome means, and a held one.
use catenary.Prelude.{
  ℕ, suc, ◌+◌, ◌≤◌, ◌<◌, ◌⊎◌, inl, inr, ◌||◌, ◌≡◌, ◌≢◌, refl, Bool, true, false, not, split, arith,
}
use catenary.Client.State.{
  Device, Credential, Time, Token, TerminalKind, not_terminal, terminal_credential,
}
use catenary.Client.Journal.{chain_len}
use catenary.Client.Hold.Delay.{wait_of, hold_now-eq-not_held_iff}
use catenary.Client.Journal
use catenary.Client.Hold.{
  RefreshHold, refresh_not_held, refresh_held_unreachable, refresh_held_backoff, hold_now,
}
use catenary.Client.Refresh.{Server, Exchanged, refused_oldest, unauthorized, refresh_due}
use catenary.Client.Flight.{
  Refreshed, refresh_token, when_allowed, refresh_when_allowed, RefreshNeed, refresh_after_401,
  refresh_due_when_allowed,
}

abbrev pub is_refused : Exchanged → Bool
is_refused refused_oldest = true
is_refused other = false

-- The kind that a running client comes to have.
abbrev pub ended_if : Bool → TerminalKind
ended_if true = terminal_credential
ended_if false = not_terminal

module _ {W : Type 0} (sv : Server W) where
  held_world :
      (hold : RefreshHold) (w : W) (d : Device) (held : Credential) (now : Time)
      (still_needed : Credential → RefreshNeed)
      → hold ≢ refresh_not_held
      → let (w', d', r) = when_allowed sv hold w d held now still_needed in
        (w' ≡ w) × (d'.journal ≡ d.journal)
  unfolding when_allowed
  held_world refresh_not_held w d held now s n = absurd (n refl)
  held_world refresh_held_unreachable w d held now s n = (refl, refl)
  held_world refresh_held_backoff w d held now s n = (refl, refl)

  -- Whether the world and the journal are as they were.
  abbrev pub IsQuiet : W → Device → W × Device × Refreshed → Type 0
  IsQuiet w d (w', d', r) = (w' ≡ w) × (d'.journal ≡ d.journal)

  quiet :
      (w : W) (d : Device) (held : Credential) (now : Time)
      (still_needed : Credential → RefreshNeed)
      → hold_now d now ≢ refresh_not_held
      → IsQuiet w d (refresh_when_allowed sv w d held now still_needed)
  unfolding refresh_when_allowed
  quiet w d held now s n = held_world (hold_now d now) w d held now s n

  -- With n + 1 links, the last sent at a time that is set and not in the future, neither
  -- automatic refresh, after a 401 or when one is due, sends anything or writes the journal, if
  -- Catenary has not answered since then or less than min(15 min, 5 s * 2^n) has gone by; the
  -- fault that lifts the bound is off.
  pub automatic_refresh-held :
      (w : W) (d : Device) (held used : Credential) (now : Time) (n : ℕ)
      → d.client.faults.unbounded ≡ false
      → chain_len d.journal ≡ suc n
      → 0 < d.journal.last_sent
      → d.journal.last_sent ≤ now
      → (d.client.answered_at ≤ d.journal.last_sent) ⊎ (now < d.journal.last_sent + wait_of n)
      → IsQuiet w d (refresh_after_401 sv w d held used now)
        × IsQuiet w d (refresh_due_when_allowed sv w d held now)
  unfolding refresh_after_401 refresh_due_when_allowed
  automatic_refresh-held w d held used now n b l s p early =
      let held' : hold_now d now ≢ refresh_not_held = λ h.
        let go = (hold_now-eq-not_held_iff d now n b l s p).0 h in
        elim early [ inl a ↦ omega (arith, a, go.0) | inr a ↦ omega (arith, a, go.1) ] in
      (
        quiet w d held now _ held',
        split (IsQuiet w d) (not d.client.refresh_enabled || not (refresh_due held now))
            (λ _. (refl, refl)) (λ _. quiet w d held now _ held'),
      )

module _ {W : Type 0} (sv : Server W) (held : Credential) where
  -- The client runs on, or Catenary refused the held refresh token.
  abbrev pub IsJustified : Bool → W × Device × Refreshed → Type 0
  IsJustified b (w', d', r) =
      (d'.client.terminal ≡ ended_if b)
      × ((d'.client.terminal ≡ not_terminal)
          ⊎ ((w1 : W) × (p : Token) × (sv.post w1 held held.refresh_token p ≡ (unauthorized, w'))))
