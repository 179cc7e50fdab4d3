-- ===== src/Client/Journal/Chain.antt =====
-- internal/client/journal.go: the invariant of the chain (the comment on Journal.chain).
use catenary.Prelude.{
  ◌≡◌, refl, sym, ◌∙◌, ◌⊎◌, inl, inr, Bool, true, false, Option, none, some, List, [], ◌∷◌, ◌++◌,
  arith, Bool-cases, Option-cases, ◌==◌, ◌≢◌, ==→eq,
}
use catenary.Client.State.{Journal, Credential, ChainLink, Token}
use catenary.Client.Journal.{
  Mint, Proposed, proposed, moved, failed, no_credential, enroll, reenroll, rotate, propose,
  find_link, newest, append_link,
}

-- Each link's token is the one before it's proposal, and the first one's is the given token.
abbrev pub Linked : Token → List ChainLink → Type 0
Linked t [] = Unit
Linked t (l ∷ ls) = (l.token ≡ t) × Linked l.proposal ls

-- No credential, no chain.
abbrev pub Extends : Option Credential → List ChainLink → Type 0
Extends none ls = ls ≡ []
Extends (some c) ls = Linked c.refresh_token ls

-- The chain descends from the held refresh token, and a settled credential has no stamp.
pub record IsChained (j : Journal) : Type 0 where
  pub linked : Extends j.credential j.chain
  pub unstamped : j.chain ≡ [] → j.last_sent ≡ 0

-- Where the search ends: at the head, or in the tail with the head before it.
pub find_link-cons :
    (t : Token) (k : ChainLink) (ls before : List ChainLink) (l : ChainLink)
    → find_link t (k ∷ ls) ≡ some (before, l)
    → ((k.token ≡ t) × (before ≡ []) × (l ≡ k))
      ⊎ ((k.token ≢ t) × ((b : List ChainLink) × (before ≡ k ∷ b) × (find_link t ls ≡ some (b, l))))
unfolding find_link
find_link-cons t k ls before l e = elim (Bool-cases (k.token == t)) [
  | inl q ↦ inl (ground arith)
  | inr q ↦ elim (Option-cases (find_link t ls)) [
    | inl miss ↦ absurd (ground arith)
    | inr ((b, m), hit) ↦ inr (ground arith, (b, ground arith, ground arith))
  ]
]

find_link-Linked :
    (t s p : Token) (ls before : List ChainLink) (l : ChainLink)
    → Linked s ls
    → find_link t ls ≡ some (before, l)
    → Linked s (before ++ record { token = t; proposal = p } ∷ [])
unfolding find_link
find_link-Linked t s p [] before l h e = absurd (ground arith)
find_link-Linked t s p (k ∷ ls) before l h e = elim (find_link-cons t k ls before l e) [
  | inl (here, none_before, found) ↦ rw none_before (sym here ∙ h.0, tt)
  | inr (skip, (b, split, found)) ↦ rw split (h.0, find_link-Linked t k.proposal p ls b l h.1 found)
]

newest-Linked :
    (s p : Token) (ls : List ChainLink)
    → Linked s ls
    → Linked s (ls ++ record { token = newest s ls; proposal = p } ∷ [])
unfolding newest
newest-Linked s p [] h = (refl, tt)
newest-Linked s p (l ∷ ls) h = (h.0, newest-Linked l.proposal p ls h.1)

pub enroll-IsChained : (j : Journal) (c : Credential) → IsChained j → IsChained (enroll j c).0
unfolding enroll
enroll-IsChained j c v = elim (Option-cases j.credential) [
  | inl fresh ↦ ground arith
  | inr (held, old) ↦ ground arith
]

pub reenroll-IsChained : (j : Journal) (c : Credential) → IsChained j → IsChained (reenroll j c).0
unfolding reenroll
reenroll-IsChained j c v = ground arith

-- A rotation keeps the chain a chain, whether it lands, which empties the chain and its stamp, or
-- is refused.
pub rotate-IsChained : (j : Journal) (c : Credential) → IsChained j → IsChained (rotate j c).0
unfolding rotate
rotate-IsChained j c v = ground arith

append_last-ne-nil : (ls : List ChainLink) (l : ChainLink) → (ls ++ l ∷ []) ≢ []
append_last-ne-nil [] l e = cc
append_last-ne-nil (k ∷ ls) l e = cc

-- What the writing branch of propose leaves is chained, if the new chain is linked.
append_link-IsChained :
    (j : Journal) (held : Credential) (before : List ChainLink) (t : Token) (m : Mint)
    → j.credential ≡ some held
    → ((p : Token) → Linked held.refresh_token (before ++ record { token = t; proposal = p } ∷ []))
    → IsChained j
    → IsChained (append_link j before t m).0
unfolding append_link
append_link-IsChained j held before t none e k v = v
append_link-IsChained j held before t (some (p, now)) e k v = record {
  linked = rw e (k p);
  unstamped = λ h. absurd (append_last-ne-nil _ _ h);
}

-- The branches of propose over a journal that holds a credential, as equations.
module _ (j : Journal) (held : Credential) (t : Token) (m : Mint)
    (e : j.credential ≡ some held) where
  pub propose_again :
      (before : List ChainLink) (l : ChainLink)
      → find_link t j.chain ≡ some (before, l)
      → propose j t false m ≡ (j, proposed l.proposal)
  unfolding propose
  propose_again before l hit = ground arith

  pub propose_replace :
      (before : List ChainLink) (l : ChainLink)
      → find_link t j.chain ≡ some (before, l)
      → propose j t true m ≡ append_link j before t m
  unfolding propose
  propose_replace before l hit = ground arith

  pub propose_moved :
      (replace : Bool)
      → find_link t j.chain ≡ none
      → (t == newest held.refresh_token j.chain) ≡ false
      → propose j t replace m ≡ (j, moved)
  unfolding propose
  propose_moved replace miss other = ground arith

  pub propose-newest :
      (replace : Bool)
      → find_link t j.chain ≡ none
      → (t == newest held.refresh_token j.chain) ≡ true
      → propose j t replace m ≡ append_link j j.chain t m
  unfolding propose
  propose-newest replace miss new = ground arith

-- How a call of propose ends: the link's own proposal again, the chain moved, or the writing branch
-- behind a linked prefix that does not hold the token.
pub data Proposing (j : Journal) (held : Credential) (t : Token) (m : Mint) (r : Journal × Proposed)
    : Type 0 where
  reused :
      (before : List ChainLink) (l : ChainLink)
      → find_link t j.chain ≡ some (before, l)
      → r ≡ (j, proposed l.proposal)
      → Proposing j held t m r
  declined : r ≡ (j, moved) → Proposing j held t m r
  written :
      (before : List ChainLink)
      → r ≡ append_link j before t m
      → find_link t before ≡ none
      → ((p : Token)
          → Linked held.refresh_token (before ++ record { token = t; proposal = p } ∷ []))
      → Proposing j held t m r

find_link-before :
    (t : Token) (ls before : List ChainLink) (l : ChainLink)
    → find_link t ls ≡ some (before, l)
    → find_link t before ≡ none
unfolding find_link
find_link-before t [] before l e = absurd (ground arith)
find_link-before t (k ∷ ls) before l e = elim (find_link-cons t k ls before l e) [
  | inl (here, none_before, found) ↦ rw none_before
  | inr (skip, (b, split, found)) ↦ rw split (ground (arith, find_link-before t ls b l found))
]

pub propose-Proposing :
    (j : Journal) (held : Credential) (t : Token) (replace : Bool) (m : Mint)
    → j.credential ≡ some held
    → IsChained j
    → Proposing j held t m (propose j t replace m)
propose-Proposing j held t replace m e v =
    let h : Linked held.refresh_token j.chain = rw e at v.linked in
    elim (Option-cases (find_link t j.chain)) [
      | inl miss ↦ elim (Bool-cases (t == newest held.refresh_token j.chain)) [
        | inl new ↦
            written j.chain (propose-newest j held t m e replace miss new) miss
              (λ p. rw (==→eq _ _ new) (newest-Linked held.refresh_token p j.chain h))
        | inr other ↦ declined (propose_moved j held t m e replace miss other)
      ]
      | inr ((before, l), hit) ↦ elim (Bool-cases replace) [
        | inl again ↦ rw again (
            written before (propose_replace j held t m e before l hit)
              (find_link-before t j.chain before l hit)
              (λ p. find_link-Linked t held.refresh_token p j.chain before l h hit))
        | inr reuse ↦ rw reuse (reused before l hit (propose_again j held t m e before l hit))
      ]
    ]

pub propose_no_credential :
    (j : Journal) (t : Token) (replace : Bool) (m : Mint)
    → j.credential ≡ none
    → propose j t replace m ≡ (j, failed no_credential)
unfolding propose
propose_no_credential j t replace m e = ground arith

propose_written-IsChained :
    (j : Journal) (held : Credential) (t : Token) (m : Mint) (r : Journal × Proposed)
    → j.credential ≡ some held
    → IsChained j
    → Proposing j held t m r
    → IsChained r.0
propose_written-IsChained j held t m r e v (reused before l hit same) = rw same v
propose_written-IsChained j held t m r e v (declined same) = rw same v
propose_written-IsChained j held t m r e v (written before wrote fresh k) =
    rw wrote (append_link-IsChained j held before t m e k v)

-- Proposing a successor for a token keeps the chain a chain: each link presents the proposal of
-- the one before it, and the first presents the held refresh token.
pub propose-IsChained :
    (j : Journal) (t : Token) (replace : Bool) (m : Mint)
    → IsChained j
    → IsChained (propose j t replace m).0
propose-IsChained j t replace m v = elim (Option-cases j.credential) [
  | inl e ↦ rw (propose_no_credential j t replace m e) v
  | inr (held, e) ↦
      propose_written-IsChained j held t m _ e v (propose-Proposing j held t replace m e v)
]
