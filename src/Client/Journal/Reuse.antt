-- ===== src/Client/Journal/Reuse.antt =====
-- internal/client/journal.go, propose: a token that is presented again.
use catenary.Prelude.{
  ◌≡◌, refl, sym, ◌∙◌, inl, inr, Bool, false, none, some, List, [], ◌∷◌, ◌++◌, arith, Option-cases,
  ◌≢◌,
}
use catenary.Client.State.{Journal, Credential, ChainLink, Token}
use catenary.Client.Journal.{Mint, Proposed, proposed, propose, find_link, append_link}
use catenary.Client.Journal.Chain.{
  IsChained, Proposing, reused, declined, written, propose-Proposing, propose_again,
  propose_no_credential,
}

pub find_link-append_last :
    (t p : Token) (ls : List ChainLink)
    → find_link t ls ≡ none
    → find_link t (ls ++ record { token = t; proposal = p } ∷ [])
      ≡ some (ls, record { token = t; proposal = p })
unfolding find_link
find_link-append_last t p [] h = ground arith
find_link-append_last t p (l ∷ ls) h = ground (arith, find_link-append_last t p ls)

append_link-propose :
    (j : Journal) (held : Credential) (before : List ChainLink) (t : Token) (m m' : Mint)
    {j' : Journal} {p : Token}
    → j.credential ≡ some held
    → find_link t before ≡ none
    → append_link j before t m ≡ (j', proposed p)
    → propose j' t false m' ≡ (j', proposed p)
unfolding append_link
append_link-propose j held before t none m' e fresh h = absurd (ground arith)
append_link-propose j held before t (some (q, now)) m' {j'} {p} e fresh h =
    let kept : j'.credential ≡ some held = ground arith in
    let hit : find_link t j'.chain ≡ some (before, record { token = t; proposal = p }) =
      ground (arith, find_link-append_last t p before fresh) in
    propose_again j' held t m' kept before (record { token = t; proposal = p }) hit

Proposing-propose :
    (j : Journal) (held : Credential) (t : Token) (m m' : Mint) (r : Journal × Proposed)
    {j' : Journal} {p : Token}
    → j.credential ≡ some held
    → Proposing j held t m r
    → r ≡ (j', proposed p)
    → propose j' t false m' ≡ (j', proposed p)
Proposing-propose j held t m m' r {j'} {p} e (reused before l hit same) h =
    let here : j ≡ j' = ground arith in
    let answer : l.proposal ≡ p = ground arith in
    rw (← here, ← answer) (propose_again j held t m' e before l hit)
Proposing-propose j held t m m' r e (declined same) h = absurd (ground arith)
Proposing-propose j held t m m' r e (written before wrote fresh k) h =
    append_link-propose j held before t m m' e fresh (sym wrote ∙ h)

-- Once a proposal was made for a token, from a journal whose chain is one, the token presented
-- again gets that proposal, whatever a mint would give, and the journal stays as it is.
pub propose-propose :
    (j : Journal) (t : Token) (replace : Bool) (m m' : Mint) {j' : Journal} {p : Token}
    → IsChained j
    → propose j t replace m ≡ (j', proposed p)
    → propose j' t false m' ≡ (j', proposed p)
propose-propose j t replace m m' {j'} {p} v h = elim (Option-cases j.credential) [
  | inl e ↦ absurd (ground (arith, propose_no_credential j t replace m e))
  | inr (held, e) ↦ Proposing-propose j held t m m' _ e (propose-Proposing j held t replace m e v) h
]

append_link-credential :
    (j : Journal) (before : List ChainLink) (t : Token) (m : Mint)
    → (append_link j before t m).0.credential ≡ j.credential
unfolding append_link
append_link-credential j before t none = refl
append_link-credential j before t (some (p, now)) = refl

append_link-find_link :
    (j : Journal) (before : List ChainLink) (t : Token) (m : Mint) (p : Token)
    → find_link t before ≡ none
    → (append_link j before t m).1 ≡ proposed p
    → find_link t (append_link j before t m).0.chain ≢ none
unfolding append_link
append_link-find_link j before t none p fresh h = cc
append_link-find_link j before t (some (q, now)) p fresh h =
    λ miss. ground (arith, find_link-append_last t q before fresh)

Proposing-find_link :
    (j : Journal) (held : Credential) (t : Token) (m : Mint) (r : Journal × Proposed) (p : Token)
    → Proposing j held t m r
    → r.1 ≡ proposed p
    → find_link t r.0.chain ≢ none
Proposing-find_link j held t m r p (reused before l hit same) h = rw same (λ miss. ground arith)
Proposing-find_link j held t m r p (declined same) h = absurd (ground arith)
Proposing-find_link j held t m r p (written before wrote fresh k) h =
    rw wrote (append_link-find_link j before t m p fresh (rw wrote at h))

Proposing-credential :
    (j : Journal) (held : Credential) (t : Token) (m : Mint) (r : Journal × Proposed)
    → Proposing j held t m r
    → r.0.credential ≡ j.credential
Proposing-credential j held t m r (reused before l hit same) = rw same
Proposing-credential j held t m r (declined same) = rw same
Proposing-credential j held t m r (written before wrote fresh k) =
    rw wrote (append_link-credential j before t m)

module _ (j : Journal) (held : Credential) (t : Token) (replace : Bool) (m : Mint)
    (e : j.credential ≡ some held) (v : IsChained j) where
  -- A token that propose answered for is in the chain that it left.
  pub propose-find_link :
      (p : Token)
      → (propose j t replace m).1 ≡ proposed p
      → find_link t (propose j t replace m).0.chain ≢ none
  propose-find_link p h =
      Proposing-find_link j held t m _ p (propose-Proposing j held t replace m e v) h

  pub propose-credential : (propose j t replace m).0.credential ≡ j.credential
  propose-credential = Proposing-credential j held t m _ (propose-Proposing j held t replace m e v)
