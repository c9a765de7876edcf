-- ===== src/RateLimit/Tests.antt =====
-- Runs of the limiter.
use npc_of_the_internet.Shared.{ℕ, ◌≡◌, refl, none, List, [], ◌∷◌, Text, text, arith, In}
use npc_of_the_internet.RateLimit.{
  RateRule, VisitorRateLimiter, visitor_rules, create_limiter, take_event, tracked_keys, granted,
  retry_after, grants, grants_to, DailyBudget, check_budget, record_spent,
}
use npc_of_the_internet.RateLimit.Windows.{Admits, Ordered}
use npc_of_the_internet.RateLimit.Visitors.{grants_to-Admits}

abbrev visits : List (Text × ℕ)
visits =
    (text "ann", 0)
    ∷ (text "ann", 1000)
    ∷ (text "ben", 2000)
    ∷ (text "cid", 2500)
    ∷ (text "ann", 70000)
    ∷ []

visits-Ordered : Ordered 0 visits
visits-Ordered = (omega arith, (omega arith, (omega arith, (omega arith, (omega arith, tt)))))

grants_to-Admits_example :
    Admits record { max = 2; window_ms = 60000 } [] (grants visits (create_limiter 2 visitor_rules))
    × ((visitor : Text) (rule : RateRule)
        → In rule visitor_rules
        → Admits rule [] (grants_to visitor visits (create_limiter 2 visitor_rules)))
grants_to-Admits_example = grants_to-Admits 2 visitor_rules visits visits-Ordered

-- Ann is too soon, and Cid is the third in a minute.
grants_test : grants visits (create_limiter 2 visitor_rules) ≡ 0 ∷ 2000 ∷ 70000 ∷ []
unfolding grants create_limiter
grants_test = refl

abbrev after_ann : VisitorRateLimiter
after_ann = (take_event (text "ann") 0 (create_limiter 2 visitor_rules)).0

retry_test : (take_event (text "ann") 1000 after_ann).1 ≡ retry_after 2000
unfolding take_event create_limiter
retry_test = refl

tracked_test : tracked_keys (take_event (text "ben") 700000 after_ann).0 ≡ 1
unfolding take_event create_limiter tracked_keys
tracked_test = refl

abbrev daily : DailyBudget
daily = record { day = none; used = 0; max = 1 }

budget_test : (check_budget 86399000 (record_spent 5 daily)).1 ≡ retry_after 1000
unfolding check_budget record_spent
budget_test = refl

next_day_test : (check_budget 86400000 (record_spent 5 daily)).1 ≡ granted
unfolding check_budget record_spent
next_day_test = refl
