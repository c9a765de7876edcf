-- ===== src/RateLimit/Windows.antt =====
-- rate-limit.ts: at most `max` events are granted in any window of the global rule.
use npc_of_the_internet.Shared.{
  ℕ, ◌≤◌, ◌<◌, ◌≡◌, refl, sym, ap, subst, ◌∙◌, inl, inr, List, [], ◌∷◌, ◌++◌, false, Text, length,
  ltb, arith, Bool-cases,
}
use npc_of_the_internet.RateLimit.{
  RateRule, VisitorRateLimiter, still_recent, wait_for, sweep, wait, record_event, take_event,
  grants, create_limiter,
}

-- Each time of `later` has fewer than `max` of the times before it within the rule's window.
abbrev pub Admits : RateRule → (before later : List ℕ) → Type 0
Admits rule before [] = Unit
Admits rule before (now ∷ later) =
    (length (still_recent now rule.window_ms before) < rule.max)
    × Admits rule (before ++ now ∷ []) later

-- The clock does not run backwards.
abbrev pub Ordered : (now : ℕ) → List (Text × ℕ) → Type 0
Ordered now [] = Unit
Ordered now ((key, at) ∷ rest) = (now ≤ at) × Ordered at rest

-- Events that one window forgets are outside a narrower one later.
pub still_recent-still_recent :
    (first now wide narrow : ℕ) (history : List ℕ)
    → first ≤ now
    → narrow ≤ wide
    → still_recent now narrow (still_recent first wide history) ≡ still_recent now narrow history
unfolding still_recent
still_recent-still_recent first now wide narrow [] h k = refl
still_recent-still_recent first now wide narrow (at ∷ rest) h k =
    ground (arith, h, k, still_recent-still_recent first now wide narrow rest h k)

pub still_recent-append :
    (now window_ms : ℕ) (xs ys : List ℕ)
    → still_recent now window_ms (xs ++ ys)
      ≡ still_recent now window_ms xs ++ still_recent now window_ms ys
unfolding still_recent
still_recent-append now window_ms [] ys = refl
still_recent-append now window_ms (x ∷ xs) ys =
    ground (arith, still_recent-append now window_ms xs ys)

pub wait_for-still_recent :
    (history : List ℕ) (rule : RateRule) (now : ℕ)
    → wait_for history rule now ≡ 0
    → length (still_recent now rule.window_ms history) < rule.max
unfolding wait_for
wait_for-still_recent history rule now h = ground (arith, h)

-- The limiter's own list and the times granted so far agree on what is recent, from now on.
Agrees : (now : ℕ) → List ℕ → VisitorRateLimiter → Type 0
Agrees now log limiter =
    (at : ℕ)
    → now ≤ at
    → still_recent at limiter.global_rule.window_ms limiter.global
      ≡ still_recent at limiter.global_rule.window_ms log

sweep-Agrees :
    (now next : ℕ) (log : List ℕ) (limiter : VisitorRateLimiter)
    → now ≤ next
    → Agrees now log limiter
    → Agrees next log (sweep next limiter)
unfolding Agrees sweep
sweep-Agrees now next log limiter h agrees at k =
    still_recent-still_recent next at limiter.global_rule.window_ms limiter.global_rule.window_ms
      limiter.global k (omega arith)
    ∙ agrees at (omega (arith, h, k))

record_event-Agrees :
    (key : Text) (now : ℕ) (log : List ℕ) (limiter : VisitorRateLimiter)
    → Agrees now log limiter
    → Agrees now (log ++ now ∷ []) (record_event key now limiter)
unfolding Agrees record_event
record_event-Agrees key now log limiter agrees at k =
    still_recent-append at limiter.global_rule.window_ms limiter.global (now ∷ [])
    ∙ ap (λ l. l ++ still_recent at limiter.global_rule.window_ms (now ∷ [])) (agrees at k)
    ∙ sym (still_recent-append at limiter.global_rule.window_ms log (now ∷ []))

wait-admits :
    (key : Text) (now : ℕ) (log : List ℕ) (limiter : VisitorRateLimiter)
    → Agrees now log limiter
    → ltb 0 (wait key now limiter) ≡ false
    → length (still_recent now limiter.global_rule.window_ms log) < limiter.global_rule.max
unfolding Agrees wait
wait-admits key now log limiter agrees h =
    subst (λ l. length l < limiter.global_rule.max) (agrees now (omega arith))
      (wait_for-still_recent limiter.global limiter.global_rule now (ground (arith, h)))

sweep_rule :
    (now : ℕ) (limiter : VisitorRateLimiter) → (sweep now limiter).global_rule ≡ limiter.global_rule
unfolding sweep
sweep_rule now limiter = refl

record_event_rule :
    (key : Text) (now : ℕ) (limiter : VisitorRateLimiter)
    → (record_event key now limiter).global_rule ≡ limiter.global_rule
unfolding record_event
record_event_rule key now limiter = refl

grants-continues :
    (events : List (Text × ℕ)) (now : ℕ) (log : List ℕ) (limiter : VisitorRateLimiter)
    → Ordered now events
    → Agrees now log limiter
    → Admits limiter.global_rule log (grants events limiter)
unfolding grants take_event
grants-continues [] now log limiter ordered agrees = tt
grants-continues ((key, at) ∷ rest) now log limiter (after, ordered) agrees =
    elim (Bool-cases (ltb 0 (wait key at (sweep at limiter)))) [
      | inl refused ↦ rw refused (
          subst (λ rule. Admits rule log (grants rest (sweep at limiter))) (sweep_rule at limiter)
            (grants-continues rest at log (sweep at limiter) ordered swept))
      | inr free ↦ rw free (
        subst (λ rule. length (still_recent at rule.window_ms log) < rule.max)
            (sweep_rule at limiter) (wait-admits key at log (sweep at limiter) swept free),
        subst
            (λ rule.
              Admits rule (log ++ at ∷ []) (grants rest (record_event key at (sweep at limiter))))
            (record_event_rule key at (sweep at limiter) ∙ sweep_rule at limiter)
            (grants-continues rest at (log ++ at ∷ []) (record_event key at (sweep at limiter))
              ordered (record_event-Agrees key at log (sweep at limiter) swept)),
      )
    ]
  where
    swept : Agrees at log (sweep at limiter)
    swept = sweep-Agrees now at log limiter after agrees

create-Agrees :
    (global_per_minute : ℕ) (key_rules : List RateRule)
    → Agrees 0 [] (create_limiter global_per_minute key_rules)
unfolding Agrees create_limiter
create-Agrees global_per_minute key_rules at h = refl

create_rule :
    (global_per_minute : ℕ) (key_rules : List RateRule)
    → (create_limiter global_per_minute key_rules).global_rule
      ≡ record { max = global_per_minute; window_ms = 60000 }
unfolding create_limiter
create_rule global_per_minute key_rules = refl

pub grants-Admits :
    (global_per_minute : ℕ) (key_rules : List RateRule) (events : List (Text × ℕ))
    → Ordered 0 events
    → Admits
        record { max = global_per_minute; window_ms = 60000 }
        []
        (grants events (create_limiter global_per_minute key_rules))
grants-Admits global_per_minute key_rules events ordered =
    subst (λ rule. Admits rule [] (grants events (create_limiter global_per_minute key_rules)))
      (create_rule global_per_minute key_rules)
      (grants-continues events 0 [] (create_limiter global_per_minute key_rules) ordered
        (create-Agrees global_per_minute key_rules))
