-- ===== src/Controller/Travels.antt =====
-- controller.ts, `runCycle`: when it may arrive, and that it does.
use npc_of_the_internet.Shared.{
  ℕ, ◌+◌, ◌≤◌, ◌<◌, ◌≡◌, ◌≢◌, refl, sym, subst, ◌∙◌, ◌⊎◌, inl, inr, Option, none, some, List, [],
  ◌∷◌, Bool, true, false, Text, length, includes, ◌&&◌, ◌==◌, nat_eq, text_eq, if◌then◌else◌, arith,
  All, In, Bool-cases, Option-cases,
}
use npc_of_the_internet.Controller.{
  LiveResidency, stopped, Attempt, arrived, Arriving, cycle_choice, choose_next_door, DepartAnswer,
  departed, failed, Departing, gone, gave_up, depart_interrupted, departing, depart_loop,
  depart_phase, CycleTrigger, operator, timer, lost_session, cycled, abandoned, aborted, in_flight,
  CycleResult, Script, outcome_of, settle, staying, travel, run_cycle,
}
use npc_of_the_internet.Controller.Choice.{choose_next_door_iff}
use npc_of_the_internet.Controller.Arrivals.{
  IsOrderly, arrive_with_retry-IsOrderly, arrive_with_retry_progress,
}

settle-events :
    (stop : Option ℕ) (b : Bool) (from : LiveResidency) (a : Arriving)
    → (settle stop b from a).events ≡ a.events
unfolding settle
settle-events stop b from a = ground arith

travel-IsOrderly :
    (stop : Option ℕ) (s : Script) (from : LiveResidency) (b : Bool) (moment : ℕ)
    → s.arrive_retry_base ≤ s.arrive_retry_max
    → All (IsOrderly stop s.arrive_retry_max) (travel stop s from b moment).events
unfolding travel
travel-IsOrderly stop s from b moment below = elim (Bool-cases (stopped stop moment)) [
  | inl down ↦ rw down tt
  | inr up ↦ rw up (
      subst (All (IsOrderly stop s.arrive_retry_max)) (sym (settle-events stop b from _)) (
        arrive_with_retry-IsOrderly _ stop s.arrive_retry_max _ 0 s.arrive_retry_base s.attempts
          below))
]

-- A cycle calls `arrive` only at moments with no shutdown before them, and waits between arrivals no
-- longer than the cap if the first delay is not above it.
pub run_cycle-IsOrderly :
    (stop : Option ℕ) (s : Script) (from : LiveResidency) (trigger : CycleTrigger)
    → s.arrive_retry_base ≤ s.arrive_retry_max
    → All (IsOrderly stop s.arrive_retry_max) (run_cycle stop s from trigger).events
unfolding run_cycle
run_cycle-IsOrderly stop s from trigger below = elim (Bool-cases (stopped stop 1)) [
  | inl down ↦ rw down tt
  | inr up ↦ rw up (by_phase (depart_phase stop s trigger))
]
  where
    by_phase :
        (p : Departing)
        → All
            (IsOrderly stop s.arrive_retry_max)
            (elim p as (λ _. CycleResult) [
              | gone moment ↦ travel stop s from true moment
              | gave_up moment ↦ travel stop s from false moment
              | depart_interrupted ↦ staying from (aborted from.epoch)
              | departing ↦ staying from in_flight
            ]).events
    by_phase (gone moment) = travel-IsOrderly stop s from true moment below
    by_phase (gave_up moment) = travel-IsOrderly stop s from false moment below
    by_phase depart_interrupted = tt
    by_phase departing = tt

depart_loop_ends :
    (moment : ℕ) (delays : List ℕ) (answers : List DepartAnswer)
    → length delays < length answers
    → (at : ℕ) × ((depart_loop none moment delays answers ≡ gone at)
        ⊎ (depart_loop none moment delays answers ≡ gave_up at))
unfolding depart_loop
depart_loop_ends moment delays [] h = absurd (omega arith)
depart_loop_ends moment delays (departed ∷ answers) h = (moment + 1, inl refl)
depart_loop_ends moment delays (failed true ∷ answers) h = (moment + 1, inr refl)
depart_loop_ends moment [] (failed false ∷ answers) h = (moment + 1, inr refl)
depart_loop_ends moment (delay ∷ delays) (failed false ∷ answers) h =
    depart_loop_ends (moment + 2) delays answers (omega arith)

some_door :
    (from : Text) (a : Attempt)
    → a.online ≢ []
    → (d : Text) × (choose_next_door a.online (some from) a.draw ≡ some d)
some_door from a h = elim (Option-cases (choose_next_door a.online (some from) a.draw)) [
  | inl missing ↦ absurd (h ((choose_next_door_iff a.online (some from) a.draw).0 missing))
  | inr chosen ↦ chosen
]

cycle_choice_found :
    (next : Option Text) (from : Text) (a : Attempt) (n : ℕ)
    → a.online ≢ []
    → (d : Text) × (cycle_choice next from a.online n a.draw ≡ some d)
unfolding cycle_choice
cycle_choice_found none from a n h = some_door from a h
cycle_choice_found (some next) from a n h = elim (Bool-cases (n == 0 && includes a.online next)) [
  | inl first ↦ (next, rw first refl)
  | inr later ↦ rw later (some_door from a h)
]

-- The outcome that names the Door arrived at.
abbrev pub IsFinished : LiveResidency → CycleResult → Type 0
IsFinished from r =
    (to : LiveResidency) × ((r.outcome ≡ cycled from to) ⊎ (r.outcome ≡ abandoned from to))

settle_arrives :
    (b : Bool) (from : LiveResidency) (a : Arriving) (to : LiveResidency) (at : ℕ)
    → a.arrival ≡ arrived to at
    → (settle none b from a).outcome ≡ outcome_of b from to
unfolding settle
settle_arrives b from a to at h = rw (h, settle) refl

outcome_of-cases :
    (b : Bool) (from to : LiveResidency)
    → (outcome_of b from to ≡ cycled from to) ⊎ (outcome_of b from to ≡ abandoned from to)
outcome_of-cases true from to = inl refl
outcome_of-cases false from to = inr refl

travel_finishes :
    (s : Script) (from : LiveResidency) (b : Bool) (moment : ℕ) (a : Attempt) (epoch : ℕ)
    → In a s.attempts
    → a.arrival ≡ some epoch
    → a.online ≢ []
    → IsFinished from (travel none s from b moment)
unfolding travel
travel_finishes s from b moment a epoch h e online =
    let next = choose_next_door s.available (some from.door_id) s.draw in
    let (to, at, arrives) =
      arrive_with_retry_progress (cycle_choice next from.door_id) s.arrive_retry_max
        (if b then moment + 1 else moment + 2) 0 s.arrive_retry_base s.attempts a epoch h e
        (λ n. cycle_choice_found next from.door_id a n online) in
    (
      to,
      elim (outcome_of-cases b from to) [
        | inl k ↦ inl (settle_arrives b from _ to at arrives ∙ k)
        | inr k ↦ inr (settle_arrives b from _ to at arrives ∙ k)
      ],
    )

run_cycle-departed :
    (s : Script) (from : LiveResidency) (a : Attempt) (epoch : ℕ)
    → In a s.attempts
    → a.arrival ≡ some epoch
    → a.online ≢ []
    → ((at : ℕ) × ((depart_loop none 2 s.depart_retry_delays s.departs ≡ gone at)
          ⊎ (depart_loop none 2 s.depart_retry_delays s.departs ≡ gave_up at)))
    → IsFinished from (run_cycle none s from operator)
unfolding run_cycle
run_cycle-departed s from a epoch h e online (at, inl left) =
    rw (left, run_cycle) (travel_finishes s from true at a epoch h e online)
run_cycle-departed s from a epoch h e online (at, inr left) =
    rw (left, run_cycle) (travel_finishes s from false at a epoch h e online)

-- With no shutdown, with an answer to every attempt to depart that the retry delays allow, and with
-- one attempt to arrive, of any number, at which a Door is online and the arrival succeeds, a cycle
-- ends at a Door, `cycled` or `abandoned`.
pub run_cycle_finishes :
    (s : Script) (from : LiveResidency) (trigger : CycleTrigger) (a : Attempt) (epoch : ℕ)
    → length s.depart_retry_delays < length s.departs
    → In a s.attempts
    → a.arrival ≡ some epoch
    → a.online ≢ []
    → IsFinished from (run_cycle none s from trigger)
unfolding run_cycle
run_cycle_finishes s from lost_session a epoch enough h e online =
    travel_finishes s from false 2 a epoch h e online
run_cycle_finishes s from operator a epoch enough h e online =
    run_cycle-departed s from a epoch h e online
      (depart_loop_ends 2 s.depart_retry_delays s.departs enough)
run_cycle_finishes s from timer a epoch enough h e online =
    run_cycle-departed s from a epoch h e online
      (depart_loop_ends 2 s.depart_retry_delays s.departs enough)
