-- ===== src/RateLimit.antt =====
-- door-web/src/rate-limit.ts: the sliding windows and the daily budget of the web Door.
pub mod Windows
pub mod Keys
pub mod Visitors
mod Tests
use npc_of_the_internet.Shared.{
  ℕ, zero, suc, ◌+◌, ◌-◌, ◌*◌, ◌/◌, Option, none, some, List, [], ◌∷◌, ◌++◌, map, Bool, true, false,
  Text, text_eq, nat_eq, length, drop, ltb, get, put, ◌==◌, if◌then◌else◌,
}

pub record RateRule : Type 0 where
  pub max : ℕ
  pub window_ms : ℕ

pub data RateDecision : Type 0 where
  granted : RateDecision
  retry_after : ℕ → RateDecision

-- 1 message in 3 s and 20 in 10 min.
abbrev pub visitor_rules : List RateRule
visitor_rules = record { max = 1; window_ms = 3000 } ∷ record { max = 20; window_ms = 600000 } ∷ []

pub record VisitorRateLimiter : Type 0 where
  pub per_key : List (Text × List ℕ)
  pub global : List ℕ
  pub key_rules : List RateRule
  pub global_rule : RateRule
  pub horizon_ms : ℕ

abbrev pub greater : ℕ → ℕ → ℕ
greater a b = if ltb a b then b else a

pub longest_window : List RateRule → ℕ
longest_window [] = 0
longest_window (rule ∷ rest) = greater rule.window_ms (longest_window rest)

-- The constructor. Without rules the source's horizon is -Infinity, and no key is tracked after a
-- sweep; that of the model keeps only events of the future.
pub create_limiter : (global_per_minute : ℕ) → (key_rules : List RateRule) → VisitorRateLimiter
unfolding longest_window
create_limiter global_per_minute key_rules = record {
  per_key = [];
  global = [];
  key_rules = key_rules;
  global_rule = record { max = global_per_minute; window_ms = 60000 };
  horizon_ms = longest_window key_rules;
}

-- `history.filter((at) => now - at < windowMs)`: an event of the future stays.
pub still_recent : (now window_ms : ℕ) → List ℕ → List ℕ
still_recent now window_ms [] = []
still_recent now window_ms (at ∷ rest) =
    let later = still_recent now window_ms rest in
    if ltb now (at + window_ms) then at ∷ later else later

first_or : ℕ → List ℕ → ℕ
first_or default [] = default
first_or default (at ∷ rest) = at

-- `waitFor`: 0 if the rule admits one more event now. The subtraction that stops at 0 is that of
-- `Math.max(1, …)`.
pub wait_for : List ℕ → RateRule → (now : ℕ) → ℕ
unfolding still_recent first_or
wait_for history rule now =
    let held = still_recent now rule.window_ms history in
    if ltb (length held) rule.max
    then 0
    else greater 1 (first_or now (drop (length held - rule.max) held) + rule.window_ms - now)

-- A key without recent events is deleted.
abbrev pub keep_key : Text → (kept : List ℕ) → List (Text × List ℕ) → List (Text × List ℕ)
keep_key key [] later = later
keep_key key (at ∷ kept) later = (key, at ∷ kept) ∷ later

pub sweep_keys : (now horizon_ms : ℕ) → List (Text × List ℕ) → List (Text × List ℕ)
unfolding still_recent
sweep_keys now horizon_ms [] = []
sweep_keys now horizon_ms ((key, history) ∷ rest) =
    keep_key key (still_recent now horizon_ms history) (sweep_keys now horizon_ms rest)

-- `sweep`
pub sweep : (now : ℕ) → VisitorRateLimiter → VisitorRateLimiter
unfolding still_recent sweep_keys
sweep now limiter = record limiter {
  global = still_recent now limiter.global_rule.window_ms limiter.global;
  per_key = sweep_keys now limiter.horizon_ms limiter.per_key;
}

abbrev pub or_empty : Option (List ℕ) → List ℕ
or_empty none = []
or_empty (some history) = history

pub history_of : Text → VisitorRateLimiter → List ℕ
history_of key limiter = or_empty (get key limiter.per_key)

pub longest_wait : List ℕ → List RateRule → (now : ℕ) → ℕ
unfolding wait_for
longest_wait history [] now = 0
longest_wait history (rule ∷ rest) now =
    greater (wait_for history rule now) (longest_wait history rest now)

-- The wait that `take` computes on a swept limiter.
pub wait : Text → (now : ℕ) → VisitorRateLimiter → ℕ
unfolding longest_wait wait_for history_of
wait key now limiter =
    greater (longest_wait (history_of key limiter) limiter.key_rules now)
      (wait_for limiter.global limiter.global_rule now)

pub record_event : Text → (now : ℕ) → VisitorRateLimiter → VisitorRateLimiter
unfolding history_of
record_event key now limiter = record limiter {
  per_key = put key (history_of key limiter ++ now ∷ []) limiter.per_key;
  global = limiter.global ++ now ∷ [];
}

-- `take`
pub take_event : Text → (now : ℕ) → VisitorRateLimiter → VisitorRateLimiter × RateDecision
unfolding sweep wait record_event
take_event key now limiter =
    let swept = sweep now limiter in
    if ltb 0 (wait key now swept)
    then (swept, retry_after (wait key now swept))
    else (record_event key now swept, granted)

pub tracked_keys : VisitorRateLimiter → ℕ
tracked_keys limiter = length limiter.per_key

abbrev pub note_granted : RateDecision → ℕ → List ℕ → List ℕ
note_granted granted now later = now ∷ later
note_granted (retry_after _) now later = later

-- The times of the events, of those that come, that are granted.
pub grants : List (Text × ℕ) → VisitorRateLimiter → List ℕ
unfolding take_event
grants [] limiter = []
grants ((key, now) ∷ rest) limiter =
    note_granted (take_event key now limiter).1 now (grants rest (take_event key now limiter).0)

-- Those that are granted to one visitor.
pub grants_to : Text → List (Text × ℕ) → VisitorRateLimiter → List ℕ
unfolding take_event
grants_to visitor [] limiter = []
grants_to visitor ((key, now) ∷ rest) limiter =
    let later = grants_to visitor rest (take_event key now limiter).0 in
    if key == visitor then note_granted (take_event key now limiter).1 now later else later

-- `DailyBudget`: no day before the first event.
pub record DailyBudget : Type 0 where
  pub day : Option ℕ
  pub used : ℕ
  pub max : ℕ

abbrev pub day_ms : ℕ
day_ms = 86400000

is_day : ℕ → Option ℕ → Bool
is_day day none = false
is_day day (some other) = day == other

pub roll : (now : ℕ) → DailyBudget → DailyBudget
unfolding is_day
roll now budget =
    if is_day (now / day_ms) budget.day
    then budget
    else record budget { day = some (now / day_ms); used = 0 }

-- `check`: after `roll`, the day is that of now.
pub check_budget : (now : ℕ) → DailyBudget → DailyBudget × RateDecision
unfolding roll
check_budget now budget =
    let rolled = roll now budget in
    (
      rolled,
      if ltb rolled.used rolled.max
          then granted
          else retry_after ((now / day_ms + 1) * day_ms - now),
    )

pub record_spent : (now : ℕ) → DailyBudget → DailyBudget
unfolding roll
record_spent now budget = let rolled = roll now budget in record rolled { used = rolled.used + 1 }
