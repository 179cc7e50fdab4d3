-- ===== src/Samples/CatchUpRuns.antt =====
-- The catch-up and the store, run.
use mathlib.Core.Path.{subst}
use catenary.Prelude.{
  ◌<◌, ◌⊎◌, inl, inr, ap, ℕ, ◌≤◌, ◌≡◌, refl, Bool, true, false, Option, none, some, [], ◌∷◌, arith,
  if◌then◌else◌, ltb, lookup, member,
}
use catenary.Prelude.{has, ◌&&◌, ◌||◌}
use catenary.Client.State.{SyncResponse}
use catenary.Client.Apply.{apply_page}
use catenary.Client.Apply.Coverage.{IsCorrect, ids}
use catenary.Client.Apply.Counted.{IsCountedOnce, apply_page-IsCountedOnce}
use catenary.Client.CatchUp.{caught_up, catch_up, page_loop}
use catenary.Client.CatchUp.Ends.{Progresses, catch_up-ends, repeat}
use catenary.Client.CatchUp.Gap.{gap_round, page_loop-gap_wipe}
use catenary.Samples.ClientData.{phone, device_1, store_1, page_3, page_5, pages, ready_0}

pub phone-IsCorrect : IsCorrect phone.faults
phone-IsCorrect = record {
  by_id = refl;
  pages_only = refl;
  late_end = refl;
  retriggers = refl;
  wipes = refl;
}

answer_of : (b : Bool) → (p : SyncResponse) × ((if b then some page_3 else some page_5) ≡ some p)
answer_of true = (page_3, refl)
answer_of false = (page_5, refl)

pages-answers : (after : ℕ) → (p : SyncResponse) × (pages after ≡ some p)
pages-answers after = answer_of (ltb after 3)

or_page : Option SyncResponse → SyncResponse
or_page none = page_3
or_page (some p) = p

page-cases :
    (b : Bool) (p : SyncResponse)
    → (if b then some page_3 else some page_5) ≡ some p
    → ((b ≡ true) × (page_3 ≡ p)) ⊎ ((b ≡ false) × (page_5 ≡ p))
unfolding or_page
page-cases true p h = inl (refl, ap or_page h)
page-cases false p h = inr (refl, ap or_page h)

-- A property of the two pages is one of what the server answers.
pages-split :
    (after : ℕ) (p : SyncResponse) (P : SyncResponse → Type 0)
    → pages after ≡ some p
    → (ltb after 3 ≡ true → P page_3)
    → (ltb after 3 ≡ false → P page_5)
    → P p
pages-split after p P h f g = elim (page-cases (ltb after 3) p h) [
  | inl (b, e) ↦ subst P e (f b)
  | inr (b, e) ↦ subst P e (g b)
]

pages-Progresses : Progresses 5 pages
pages-Progresses = record {
  answers = λ after. pages-answers after;
  advances = λ after p h.
      pages-split after p (λ x. x.has_more ≡ true → after < x.log_seq) h (λ b m. ground arith)
        (λ b m. absurd (ground arith));
  bounded = λ after p h.
      pages-split after p (λ x. x.has_more ≡ true → x.log_seq ≤ 5) h (λ b m. omega arith)
        (λ b m. absurd (ground arith));
}

catch_up-ends_example : (catch_up (repeat 5 pages pages-Progresses 6) device_1).0 ≡ caught_up
catch_up-ends_example = catch_up-ends 5 pages pages-Progresses device_1 refl

store_1-IsCountedOnce : IsCountedOnce store_1
unfolding lookup
store_1-IsCountedOnce = record { counted = refl; distinct = (refl, tt) }

apply_page-IsCountedOnce_example :
    IsCountedOnce (apply_page device_1 page_3 0).0.journal
    × (has 12 (apply_page device_1 page_3 0).0.journal.counted ≡ (
        (apply_page device_1 page_3 0).1 && has 12 (ids page_3.messages)
        || has 12 device_1.journal.counted))
apply_page-IsCountedOnce_example =
    apply_page-IsCountedOnce device_1 phone-IsCorrect store_1-IsCountedOnce page_3 0 12

page_loop-gap_wipe_example :
    ((page_loop (gap_round ready_0 pages ∷ []) (some 3) device_1).1.journal.cursor ≡ 5)
    × (member 12 (page_loop (gap_round ready_0 pages ∷ []) (some 3) device_1).1.journal.messages
        ≡ false)
page_loop-gap_wipe_example =
    page_loop-gap_wipe device_1 ready_0 3 pages page_5
      (record { id = 12; conversation_id = 7; seq = 2; log_seq = 2 }) phone-IsCorrect refl refl
      (omega arith) refl refl
