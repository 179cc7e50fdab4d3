-- ===== src/Client/Backoff.antt =====
-- internal/client/backoff.go and the part of the dial loop that uses it (client.go, Run, from the end
-- of a session to the next dial). A duration is its nanoseconds; one below 2^62 doubles in an int64.
-- The jittered wait is drawn with floats, so it is the parameter `jitter` of the loop.
use catenary.Prelude.{
  ℕ, ◌*◌, ◌≤◌, ◌≡◌, refl, Bool, ◌&&◌, ◌||◌, Option, none, some, List, [], ◌∷◌, leb, if◌then◌else◌,
  min, arith,
}
use catenary.Client.State.{Client}
use catenary.Client.Terminal.{
  ErrorCode, CloseVerdict, reconnect, reconnect_at_maximum, stop_protocol_failure, classify_close,
}

unfoldable pub resets_ramp : Bool → ℕ → ℕ → Bool
resets_ramp readied readied_for interval = readied && leb interval readied_for

unfoldable pub advance : ℕ → ℕ → ℕ
advance nominal ceiling = min (nominal * 2) ceiling

-- How a session ended: what `session` returns, the close status that it read, and how long the
-- session had been ready.
pub record SessionEnd : Type 0 where
  pub opened : Bool
  pub readied : Bool
  pub readied_for : ℕ
  pub status : Option ℕ
  pub preceding : Option ErrorCode

-- The next dial's wait and the nominal wait after it, or the stop.
pub data DialNext : Type 0 where
  stopped : DialNext
  redial : (wait nominal : ℕ) → DialNext

unfoldable pub verdict : Client → SessionEnd → CloseVerdict
verdict c e =
    if e.opened
    then (if c.faults.never_terminal
        then reconnect
        else if c.faults.always_terminal
        then stop_protocol_failure
        else classify_close e.status e.preceding)
    else reconnect

unfoldable pub is_stable : Client → SessionEnd → Bool
unfolding resets_ramp
is_stable c e =
    resets_ramp e.readied e.readied_for c.interval || e.readied && c.faults.reset_on_any_ready

module _ (jitter : ℕ → ℕ) where
  unfoldable pub wait_for : Client → ℕ → ℕ
  wait_for c nominal = if c.faults.no_jitter then nominal else jitter nominal

  -- The nominal wait of this dial, after the two rules on the session that ended.
  pick : Client → Bool → CloseVerdict → ℕ → ℕ
  pick c stable reconnect backoff = if stable then c.backoff_min else backoff
  pick c stable reconnect_at_maximum backoff = c.backoff_max
  pick c stable stop_protocol_failure backoff = backoff

  after : Client → Bool → ℕ → DialNext
  unfolding wait_for advance
  after c stable nominal =
      redial (wait_for c nominal) (if stable then nominal else advance nominal c.backoff_max)

  next_dial_as : Client → Bool → CloseVerdict → ℕ → DialNext
  unfolding pick after
  next_dial_as c stable stop_protocol_failure backoff = stopped
  next_dial_as c stable v backoff = after c stable (pick c stable v backoff)

  -- From the end of a session to the next dial.
  unfoldable pub next_dial : Client → SessionEnd → ℕ → DialNext
  unfolding next_dial_as verdict is_stable
  next_dial c e backoff = next_dial_as c (is_stable c e) (verdict c e) backoff

  -- The nominal wait after sessions that all ended with a redial; none if one of them stopped.
  unfoldable pub ramp : Client → ℕ → List SessionEnd → Option ℕ
  unfolding next_dial
  ramp c backoff [] = some backoff
  ramp c backoff (e ∷ es) = elim (next_dial c e backoff) [
    | stopped ↦ none
    | redial wait nominal ↦ ramp c nominal es
  ]

  after_bounds :
      (c : Client) (stable : Bool) (b : ℕ) {wait nominal : ℕ}
      → c.backoff_min ≤ b
      → b ≤ c.backoff_max
      → ((d : ℕ) → jitter d ≤ d)
      → after c stable b ≡ redial wait nominal
      → (wait ≤ c.backoff_max) × (c.backoff_min ≤ nominal) × (nominal ≤ c.backoff_max)
  unfolding after
  after_bounds c stable b lo hi j h = ground (arith, j b)

  pick_bounds :
      (c : Client) (stable : Bool) (v : CloseVerdict) (b : ℕ)
      → c.backoff_min ≤ b
      → b ≤ c.backoff_max
      → (c.backoff_min ≤ pick c stable v b) × (pick c stable v b ≤ c.backoff_max)
  unfolding pick
  pick_bounds c stable v b lo hi = ground arith

  next_dial_as_bounds :
      (c : Client) (stable : Bool) (v : CloseVerdict) (b : ℕ) {wait nominal : ℕ}
      → c.backoff_min ≤ b
      → b ≤ c.backoff_max
      → ((d : ℕ) → jitter d ≤ d)
      → next_dial_as c stable v b ≡ redial wait nominal
      → (wait ≤ c.backoff_max) × (c.backoff_min ≤ nominal) × (nominal ≤ c.backoff_max)
  unfolding next_dial_as
  next_dial_as_bounds c stable stop_protocol_failure b lo hi j h = absurd (ground arith)
  next_dial_as_bounds c stable v b lo hi j h =
      let (lo', hi') = pick_bounds c stable v b lo hi in after_bounds c stable _ lo' hi' j h

  -- The dial loop keeps its nominal wait between the two bounds, whatever sessions it has seen,
  -- if it starts between them and the jitter never lengthens a wait.
  pub ramp_bounds :
      (c : Client) (b : ℕ) (es : List SessionEnd) {last : ℕ}
      → c.backoff_min ≤ b
      → b ≤ c.backoff_max
      → ((d : ℕ) → jitter d ≤ d)
      → ramp c b es ≡ some last
      → (c.backoff_min ≤ last) × (last ≤ c.backoff_max)
  unfolding ramp next_dial
  ramp_bounds c b [] lo hi j h = ground arith
  ramp_bounds c b (e ∷ es) {last} lo hi j h =
      (elim (next_dial c e b)
          as (λ x.
            next_dial c e b ≡ x
            → (elim x [ stopped ↦ none | redial wait nominal ↦ ramp c nominal es ]) ≡ some last
            → (c.backoff_min ≤ last) × (last ≤ c.backoff_max)) [
              | stopped ↦ λ q g. absurd (ground arith)
              | redial wait nominal ↦ λ q g.
                  let (w, l, u) = next_dial_as_bounds c (is_stable c e) (verdict c e) b lo hi j q in
                  ramp_bounds c nominal es l u j g
            ])
        refl h
