-- ===== src/Client/Refresh/Walk.antt =====
-- internal/client/refresh.go, exchange: the walk along the chain.
use catenary.Prelude.{
  ℕ, zero, suc, ◌≡◌, refl, Bool, true, false, ◌||◌, Option, none, some, List, [], ◌∷◌, arith, ◌≢◌,
  ◌+◌,
}
use catenary.Client.State.{Credential, ChainLink, Device, Token}
use mathlib.Core.Path.{subst}
use catenary.Client.Journal.Reuse
use catenary.Client.Journal.{proposed, Mint, find_link, older, older_from, older_in, moved, failed}
use catenary.Client.Journal.Chain.{IsChained, Linked, propose-IsChained}
use catenary.Client.Refresh.{
  Server, Answer, granted, unauthorized, present_proposal, fresh_proposal, unknown_outcome, Offer,
  offer, kill, refused_oldest, Outcome, respond, walk_back, present, bump_walk_backs, walk,
  exchange, propose,
}

older_from-eq-none :
    (t : Token) (prev : ChainLink) (ls : List ChainLink)
    → older_from t prev ls ≡ none
    → find_link t ls ≡ none
unfolding older_from find_link
older_from-eq-none t prev [] h = refl
older_from-eq-none t prev (l ∷ ls) h = ground (arith, older_from-eq-none t l ls)

-- A token of the chain with none before it is the one that the server last confirmed.
older_in-eq-none :
    (s t : Token) (ls : List ChainLink)
    → Linked s ls
    → find_link t ls ≢ none
    → older_in t ls ≡ none
    → t ≡ s
unfolding older_in find_link
older_in-eq-none s t [] h hit e = absurd (hit refl)
older_in-eq-none s t (l ∷ ls) h hit e = ground (arith, older_from-eq-none t l ls)

-- A device in the middle of an exchange: not killed, no faults that touch the chain, and a chain
-- that extends the held credential.
pub record IsWalking (held : Credential) (d : Device) : Type 0 where
  pub alive : d.client.killed ≡ false
  pub chained : d.client.faults.no_chain ≡ false
  pub holds : d.journal.credential ≡ some held
  pub journal : IsChained d.journal

bump_walk_backs-IsWalking :
    (held : Credential) (d : Device) → IsWalking held d → IsWalking held (bump_walk_backs d)
bump_walk_backs-IsWalking held d v = record {
  alive = v.alive;
  chained = v.chained;
  holds = v.holds;
  journal = v.journal;
}

propose-IsWalking :
    (held : Credential) (d : Device) (t : Token) (replace : Bool) (m : Mint)
    → IsWalking held d
    → IsWalking held (propose d t replace m).0
unfolding propose
propose-IsWalking held d t replace m v =
    let r : Bool = replace || d.client.faults.propose_afresh in
    ground (
      arith,
      Reuse.propose-credential d.journal held t r m v.holds v.journal,
      propose-IsChained d.journal t r m v.journal,
    )

propose-find_link :
    (held : Credential) (d : Device) (t p : Token) (replace : Bool) (m : Mint)
    → IsWalking held d
    → (propose d t replace m).1 ≡ offer (proposed p)
    → find_link t (propose d t replace m).0.journal.chain ≢ none
unfolding propose
propose-find_link held d t p replace m v h =
    let r : Bool = replace || d.client.faults.propose_afresh in
    ground (arith, Reuse.propose-find_link d.journal held t r m v.holds v.journal p)

module _ {W : Type 0} (sv : Server W) (held : Credential)
    (alone : (w : W) (d : Device) → sv.others w d ≡ d) where
  -- If the outcome is a refusal, the last request was the held refresh token's, and Catenary
  -- answered it 401.
  abbrev IsJust : Outcome W → Type 0
  IsJust r =
      r.0 ≡ refused_oldest
      → (w : W) × (p : Token) × (sv.post w held held.refresh_token p ≡ (unauthorized, r.2))

  abbrev Continues : (W → Device → Token → Bool → ℕ → Outcome W) → Type 0
  Continues next =
      (w : W) (d : Device) (t : Token) (replace : Bool) (c : ℕ)
      → IsWalking held d
      → IsJust (next w d t replace c)

  walk_back-IsJust :
      (next : W → Device → Token → Bool → ℕ → Outcome W) (k : Continues next) (o : Option Token)
      (w w1 : W) (d : Device) (c : ℕ)
      → IsWalking held d
      → (o ≡ none → (p : Token) × (sv.post w held held.refresh_token p ≡ (unauthorized, w1)))
      → IsJust (walk_back sv held next o w1 d c)
  unfolding walk_back
  walk_back-IsJust next k none w w1 d c v oldest =
      λ h. let (p, refusal) = oldest refl in (w, p, refusal)
  walk_back-IsJust next k (some prev) w w1 d c v oldest =
      k w1 _ prev false c (bump_walk_backs-IsWalking held d v)

  respond-IsJust :
      (next : W → Device → Token → Bool → ℕ → Outcome W) (k : Continues next) (a : Answer)
      (w w1 : W) (d : Device) (t p : Token) (c : ℕ)
      → IsWalking held d
      → find_link t d.journal.chain ≢ none
      → sv.post w held t p ≡ (a, w1)
      → IsJust (respond sv held next a w1 d t p c)
  unfolding respond
  respond-IsJust next k (granted cred) w w1 d t p c v hit e = λ h. cc
  respond-IsJust next k unauthorized w w1 d t p c v hit e =
      walk_back-IsJust next k (older d.journal t) w w1 d c v (λ oldest. (
        p,
        subst (λ x. sv.post w held x p ≡ (unauthorized, w1))
            (older_in-eq-none held.refresh_token t d.journal.chain (rw v.holds at v.journal.linked)
              hit oldest)
            e,
      ))
  respond-IsJust next k present_proposal w w1 d t p c v hit e = k w1 d p false c v
  respond-IsJust next k (fresh_proposal after) w w1 d t p c v hit e =
      ground (arith, k w1 d t true (c + 1) v)
  respond-IsJust next k unknown_outcome w w1 d t p c v hit e = λ h. cc

  present-IsJust :
      (next : W → Device → Token → Bool → ℕ → Outcome W) (k : Continues next) (o : Offer) (w : W)
      (d : Device) (t : Token) (c : ℕ)
      → IsWalking held d
      → ((p : Token) → o ≡ offer (proposed p) → find_link t d.journal.chain ≢ none)
      → IsJust (present sv held next o w d t c)
  unfolding present
  present-IsJust next k kill w d t c v hit = λ h. cc
  present-IsJust next k (offer (failed x)) w d t c v hit = λ h. cc
  present-IsJust next k (offer moved) w d t c v hit = λ h. cc
  present-IsJust next k (offer (proposed p)) w d t c v hit =
      rw alone (respond-IsJust next k _ w _ d t p c v (hit p refl) refl)

  walk-IsJust : (steps : ℕ) → Continues (walk sv held steps)
  unfolding walk
  walk-IsJust zero w d t replace c v = λ h. cc
  walk-IsJust (suc steps) w d t replace c v =
      present-IsJust (walk sv held steps) (walk-IsJust steps) _ w _ t c
        (propose-IsWalking held d t replace (sv.mint w) v)
        (λ p e. propose-find_link held d t p replace (sv.mint w) v e)

  -- An exchange that ends in a refusal ends with Catenary's own 401 to the oldest token of the
  -- chain, the held refresh token. The device is alive, uses its chain, and the chain extends
  -- the held credential; no other context touches the device during the exchange.
  pub exchange-refused_oldest :
      (w : W) (d : Device)
      → IsWalking held d
      → (exchange sv held w d).0 ≡ refused_oldest
      → (w1 : W) × (p : Token) × (sv.post w1 held held.refresh_token p
          ≡ (unauthorized, (exchange sv held w d).2))
  unfolding exchange
  exchange-refused_oldest w d v = walk-IsJust _ w d _ false 0 v
