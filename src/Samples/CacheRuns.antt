-- ===== src/Samples/CacheRuns.antt =====
-- The cache of fetch results and the address policy, run.
use catenary.Prelude.{
  ℕ, ◌*◌, ◌^◌, ◌/◌, ◌↔◌, ◌+◌, ◌≡◌, refl, none, some, [], ◌∷◌, leb, if◌then◌else◌, arith,
}
use catenary.LinkPreview.Address.{judge, judge4, judge_plain6, judge_ranges, blocked_v6}
use catenary.LinkPreview.Address.Embedded.{
  six_to_four, carry, judge-carry, judge_plain6-eq-none_iff,
}
use catenary.LinkPreview.Cache.{Cache, get, put}
use catenary.LinkPreview.Cache.Bound.{IsBounded, put-IsBounded, gets, get-gets-put}

-- A full cache of two entries, the first of which has expired by 50.
abbrev full : Cache ℕ
full = record {
  max = 2;
  m = (1, record { v = 10; expires = 40 }) ∷ (2, record { v = 20; expires = 90 }) ∷ [];
}

put-IsBounded_example : IsBounded (put 3 30 60 50 full)
put-IsBounded_example =
    put-IsBounded 3 30 60 50 full (omega arith) (λ h. omega (arith, h)) (omega arith, refl)

get-gets-put_example :
    (get 3 100 (gets ((3, 60) ∷ (2, 95) ∷ []) (put 3 30 60 50 full))).0
    ≡ (if leb (50 + 60) 100 then none else some 30)
get-gets-put_example =
    get-gets-put 3 30 60 50 100 ((3, 60) ∷ (2, 95) ∷ []) full (omega arith, (omega arith, tt))

-- 127.0.0.1 in 2002::/16.
judge-carry_example : judge (carry (six_to_four 1) 2130706433) ≡ judge4 2130706433
judge-carry_example = judge-carry (six_to_four 1) 2130706433 (omega arith)

-- 2606:4700::1111, which is allowed.
judge_plain6-eq-none_iff_example :
    (judge_plain6 (9734 * 2 ^ 112 + 18176 * 2 ^ 96 + 4369) ≡ none) ↔ (
      ((9734 * 2 ^ 112 + 18176 * 2 ^ 96 + 4369) / 2 ^ 125 ≡ 1)
      × (judge_ranges blocked_v6 (9734 * 2 ^ 112 + 18176 * 2 ^ 96 + 4369) ≡ none))
judge_plain6-eq-none_iff_example = judge_plain6-eq-none_iff (9734 * 2 ^ 112 + 18176 * 2 ^ 96 + 4369)
