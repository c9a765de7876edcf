-- ===== src/RateLimit/Visitors.antt =====
-- rate-limit.ts: at most `max` events of one visitor are granted in any window of a rule.
use npc_of_the_internet.Shared.{
  ℕ, ◌≤◌, ◌<◌, ◌≡◌, refl, sym, ap, subst, ◌∙◌, inl, inr, List, [], ◌∷◌, ◌++◌, true, false, Text,
  length, ltb, arith, Bool-cases, if◌then◌else◌, get-put, text_eq, ◌==◌, In,
}
use npc_of_the_internet.RateLimit.{
  RateRule, VisitorRateLimiter, still_recent, wait_for, sweep, wait, record_event, take_event,
  grants, grants_to, create_limiter, or_empty, history_of, longest_wait, longest_window,
}
use npc_of_the_internet.RateLimit.Windows.{
  Admits, Ordered, grants-Admits, still_recent-append, wait_for-still_recent,
}
use npc_of_the_internet.RateLimit.Keys.{KeysOnce, sweep_keys-KeysOnce, sweep_keys-get, put-KeysOnce}

-- The limiter's history of the visitor and the times granted so far agree on what is recent for the
-- rule, from now on.
record Serves (visitor : Text) (rule : RateRule) (now : ℕ) (log : List ℕ)
    (limiter : VisitorRateLimiter) : Type 0 where
  once : KeysOnce limiter.per_key
  among : In rule limiter.key_rules
  shorter : rule.window_ms ≤ limiter.horizon_ms
  agrees :
      (at : ℕ)
      → now ≤ at
      → still_recent at rule.window_ms (history_of visitor limiter)
        ≡ still_recent at rule.window_ms log

sweep-Serves :
    (visitor : Text) (rule : RateRule) (now next : ℕ) (log : List ℕ) (limiter : VisitorRateLimiter)
    → now ≤ next
    → Serves visitor rule now log limiter
    → Serves visitor rule next log (sweep next limiter)
unfolding sweep history_of
sweep-Serves visitor rule now next log limiter h serves = record {
  once = sweep_keys-KeysOnce next limiter.horizon_ms limiter.per_key serves.once;
  among = serves.among;
  shorter = serves.shorter;
  agrees = λ at k.
      sweep_keys-get visitor next at limiter.horizon_ms rule.window_ms limiter.per_key k
        serves.shorter serves.once
      ∙ serves.agrees at (omega (arith, h, k));
}

record_event_history :
    (visitor key : Text) (now : ℕ) (limiter : VisitorRateLimiter)
    → history_of visitor (record_event key now limiter)
      ≡ (if key == visitor then history_of key limiter ++ now ∷ [] else history_of visitor limiter)
unfolding record_event history_of
record_event_history visitor key now limiter =
    ap or_empty (get-put key visitor (history_of key limiter ++ now ∷ []) limiter.per_key)
    ∙ elim (Bool-cases (key == visitor)) [ inl same ↦ rw same refl | inr differs ↦ rw differs refl ]

record_event-KeysOnce :
    (key : Text) (now : ℕ) (limiter : VisitorRateLimiter)
    → KeysOnce limiter.per_key
    → KeysOnce (record_event key now limiter).per_key
unfolding record_event
record_event-KeysOnce key now limiter once =
    put-KeysOnce key (history_of key limiter ++ now ∷ []) limiter.per_key once

record_event-other :
    (visitor key : Text) (rule : RateRule) (now : ℕ) (log : List ℕ) (limiter : VisitorRateLimiter)
    → (key == visitor) ≡ false
    → Serves visitor rule now log limiter
    → Serves visitor rule now log (record_event key now limiter)
unfolding record_event
record_event-other visitor key rule now log limiter differs serves = record {
  once = record_event-KeysOnce key now limiter serves.once;
  among = serves.among;
  shorter = serves.shorter;
  agrees = λ at k.
      ap (still_recent at rule.window_ms)
        (record_event_history visitor key now limiter ∙ rw differs refl)
      ∙ serves.agrees at k;
}

record_event-own :
    (visitor key : Text) (rule : RateRule) (now : ℕ) (log : List ℕ) (limiter : VisitorRateLimiter)
    → (key == visitor) ≡ true
    → Serves visitor rule now log limiter
    → Serves visitor rule now (log ++ now ∷ []) (record_event key now limiter)
unfolding record_event
record_event-own visitor key rule now log limiter same serves = record {
  once = record_event-KeysOnce key now limiter serves.once;
  among = serves.among;
  shorter = serves.shorter;
  agrees = λ at k.
      ap (still_recent at rule.window_ms) (
        record_event_history visitor key now limiter
        ∙ rw same refl
        ∙ ap (λ j. history_of j limiter ++ now ∷ []) ((text_eq.test_iff key visitor).0 same))
      ∙ still_recent-append at rule.window_ms (history_of visitor limiter) (now ∷ [])
      ∙ ap (λ l. l ++ still_recent at rule.window_ms (now ∷ [])) (serves.agrees at k)
      ∙ sym (still_recent-append at rule.window_ms log (now ∷ []));
}

longest_wait-wait_for :
    (history : List ℕ) (rules : List RateRule) (rule : RateRule) (now : ℕ)
    → In rule rules
    → ltb 0 (longest_wait history rules now) ≡ false
    → wait_for history rule now ≡ 0
unfolding longest_wait
longest_wait-wait_for history [] rule now h waits = absurd h
longest_wait-wait_for history (first ∷ rest) rule now (inl same) waits =
    subst (λ r. wait_for history r now ≡ 0) same (ground (arith, waits))
longest_wait-wait_for history (first ∷ rest) rule now (inr later) waits =
    longest_wait-wait_for history rest rule now later (ground (arith, waits))

wait-admits :
    (visitor key : Text) (rule : RateRule) (now : ℕ) (log : List ℕ) (limiter : VisitorRateLimiter)
    → (key == visitor) ≡ true
    → Serves visitor rule now log limiter
    → ltb 0 (wait key now limiter) ≡ false
    → length (still_recent now rule.window_ms log) < rule.max
unfolding wait
wait-admits visitor key rule now log limiter same serves h =
    subst (λ l. length l < rule.max)
      (ap (λ j. still_recent now rule.window_ms (history_of j limiter))
          ((text_eq.test_iff key visitor).0 same)
        ∙ serves.agrees now (omega arith))
      (wait_for-still_recent (history_of key limiter) rule now (
        longest_wait-wait_for (history_of key limiter) limiter.key_rules rule now serves.among
          (ground (arith, h))))

grants_to-continues :
    (events : List (Text × ℕ)) (visitor : Text) (rule : RateRule) (now : ℕ) (log : List ℕ)
    (limiter : VisitorRateLimiter)
    → Ordered now events
    → Serves visitor rule now log limiter
    → Admits rule log (grants_to visitor events limiter)
unfolding grants_to take_event
grants_to-continues [] visitor rule now log limiter ordered serves = tt
grants_to-continues ((key, at) ∷ rest) visitor rule now log limiter (after, ordered) serves =
    let next = sweep at limiter in
    let swept = sweep-Serves visitor rule now at log limiter after serves in
    elim (Bool-cases (ltb 0 (wait key at next))) [
      | inl refused ↦
          let later = grants_to-continues rest visitor rule at log next ordered swept in
          rw refused (elim (Bool-cases (key == visitor)) [
            | inl same ↦ rw same later
            | inr differs ↦ rw differs later
          ])
      | inr free ↦ rw free (elim (Bool-cases (key == visitor)) [
        | inl same ↦ rw same (
          wait-admits visitor key rule at log next same swept free,
          grants_to-continues rest visitor rule at (log ++ at ∷ []) (record_event key at next)
              ordered (record_event-own visitor key rule at log next same swept),
        )
        | inr differs ↦ rw differs (
            grants_to-continues rest visitor rule at log (record_event key at next) ordered
              (record_event-other visitor key rule at log next differs swept))
      ])
    ]

longest_window-bounds :
    (rule : RateRule) (rules : List RateRule)
    → In rule rules
    → rule.window_ms ≤ longest_window rules
unfolding longest_window
longest_window-bounds rule [] h = absurd h
longest_window-bounds rule (first ∷ rest) (inl same) =
    subst (λ r. r.window_ms ≤ longest_window (first ∷ rest)) same (ground arith)
longest_window-bounds rule (first ∷ rest) (inr later) =
    ground (arith, longest_window-bounds rule rest later)

create-Serves :
    (visitor : Text) (global_per_minute : ℕ) (key_rules : List RateRule) (rule : RateRule)
    → In rule key_rules
    → Serves visitor rule 0 [] (create_limiter global_per_minute key_rules)
unfolding create_limiter history_of
create-Serves visitor global_per_minute key_rules rule h = record {
  once = tt;
  among = h;
  shorter = longest_window-bounds rule key_rules h;
  agrees = λ at k. refl;
}

-- While the clock does not run backwards, a new limiter grants, whatever events come, fewer than
-- `global_per_minute` of them in the 60 s before each event that it grants, and, for each of its
-- rules, fewer than `max` of one visitor in the rule's window before each that it grants to him.
pub grants_to-Admits :
    (global_per_minute : ℕ) (key_rules : List RateRule) (events : List (Text × ℕ))
    → Ordered 0 events
    → Admits
        record { max = global_per_minute; window_ms = 60000 }
        []
        (grants events (create_limiter global_per_minute key_rules))
      × ((visitor : Text) (rule : RateRule)
          → In rule key_rules
          → Admits rule [] (grants_to visitor events (create_limiter global_per_minute key_rules)))
grants_to-Admits global_per_minute key_rules events ordered = (
  grants-Admits global_per_minute key_rules events ordered,
  λ visitor rule h.
      grants_to-continues events visitor rule 0 [] (create_limiter global_per_minute key_rules)
        ordered (create-Serves visitor global_per_minute key_rules rule h),
)
