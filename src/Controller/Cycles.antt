-- ===== src/Controller/Cycles.antt =====
-- controller.ts, `runCycle` and `shutdown`.
use npc_of_the_internet.Shared.{
  ℕ, ◌≡◌, refl, sym, subst, ◌⊎◌, inl, inr, Option, none, some, [], ◌∷◌, Bool, true, false, nat_eq,
  text_eq, if◌then◌else◌, In, Bool-cases,
}
use npc_of_the_internet.Controller.{
  LiveResidency, stopped, Arrival, arrived, interrupted, waiting, Arriving, Departing, gone,
  gave_up, depart_interrupted, departing, depart_phase, CycleTrigger, CycleOutcome, cycled,
  abandoned, aborted, in_flight, CycleResult, Script, outcome_of, settle, staying, travel,
  run_cycle, shutdown,
}
use npc_of_the_internet.Controller.Arrivals.{}

abbrev pub SettledBy : LiveResidency → CycleResult → CycleOutcome → Type 0
SettledBy from r (cycled left to) = (left ≡ from) × (r.live ≡ some to) × (r.closed ≡ from ∷ [])
SettledBy from r (abandoned left to) = (left ≡ from) × (r.live ≡ some to) × (r.closed ≡ from ∷ [])
SettledBy from r (aborted epoch) =
    (epoch ≡ from.epoch)
    × (((r.live ≡ some from) × (r.closed ≡ [])) ⊎ ((r.live ≡ none) × In from r.closed))
SettledBy from r in_flight =
    ((r.live ≡ some from) × (r.closed ≡ [])) ⊎ ((r.live ≡ none) × In from r.closed)

-- A finished cycle left the old residency, closed it, and lives at the Door it arrived at. Any other
-- one still lives at the old Door, or nowhere with the old residency closed.
abbrev pub IsSettled : LiveResidency → CycleResult → Type 0
IsSettled from r = SettledBy from r r.outcome

settle-IsSettled :
    (stop : Option ℕ) (b : Bool) (from : LiveResidency) (a : Arriving)
    → IsSettled from (settle stop b from a)
unfolding settle
settle-IsSettled stop b from a = by_arrival a.arrival
  where
    by_kind :
        (k : Bool) (to : LiveResidency)
        → IsSettled from (record {
          outcome = outcome_of k from to;
          live = some to;
          closed = from ∷ [];
          events = a.events;
        })
    by_kind true to = (refl, refl, refl)
    by_kind false to = (refl, refl, refl)

    by_arrival :
        (x : Arrival)
        → IsSettled from (elim x [
          | arrived to moment ↦
              if stopped stop moment
              then record {
                outcome = aborted from.epoch;
                live = none;
                closed = from ∷ to ∷ [];
                events = a.events;
              }
              else record {
                outcome = outcome_of b from to;
                live = some to;
                closed = from ∷ [];
                events = a.events;
              }
          | interrupted ↦ record {
            outcome = aborted from.epoch;
            live = none;
            closed = from ∷ [];
            events = a.events;
          }
          | waiting ↦ record {
            outcome = in_flight;
            live = none;
            closed = from ∷ [];
            events = a.events;
          }
        ])
    by_arrival interrupted = (refl, inr (refl, inl refl))
    by_arrival waiting = inr (refl, inl refl)
    by_arrival (arrived to moment) = elim (Bool-cases (stopped stop moment)) [
      | inl down ↦ rw down (refl, inr (refl, inl refl))
      | inr up ↦ rw up (by_kind b to)
    ]

travel-IsSettled :
    (stop : Option ℕ) (s : Script) (from : LiveResidency) (b : Bool) (moment : ℕ)
    → IsSettled from (travel stop s from b moment)
unfolding travel
travel-IsSettled stop s from b moment = elim (Bool-cases (stopped stop moment)) [
  | inl down ↦ rw down (refl, inl (refl, refl))
  | inr up ↦ rw up (settle-IsSettled stop b from _)
]

-- Whatever the Doors answer and whenever a shutdown lands: a cycle that ends `cycled` or `abandoned`
-- left its old residency, closed it and nothing else, and is live at the Door it names; one that ends
-- `aborted` or is in flight still has the old residency live and closed none, or none live and the
-- old one closed.
pub run_cycle-IsSettled :
    (stop : Option ℕ) (s : Script) (from : LiveResidency) (trigger : CycleTrigger)
    → IsSettled from (run_cycle stop s from trigger)
unfolding run_cycle
run_cycle-IsSettled stop s from trigger = elim (Bool-cases (stopped stop 1)) [
  | inl down ↦ rw down (refl, inl (refl, refl))
  | inr up ↦ rw up (by_phase (depart_phase stop s trigger))
]
  where
    by_phase :
        (p : Departing)
        → IsSettled from (elim p [
          | gone moment ↦ travel stop s from true moment
          | gave_up moment ↦ travel stop s from false moment
          | depart_interrupted ↦ staying from (aborted from.epoch)
          | departing ↦ staying from in_flight
        ])
    by_phase (gone moment) = travel-IsSettled stop s from true moment
    by_phase (gave_up moment) = travel-IsSettled stop s from false moment
    by_phase depart_interrupted = (refl, inl (refl, refl))
    by_phase departing = inl (refl, refl)

-- A shutdown after a cycle leaves no residency live, and the residency that the cycle left is closed.
pub shutdown-run_cycle :
    (stop : Option ℕ) (s : Script) (from : LiveResidency) (trigger : CycleTrigger)
    → ((shutdown (run_cycle stop s from trigger)).live ≡ none)
      × In from (shutdown (run_cycle stop s from trigger)).closed
unfolding shutdown
shutdown-run_cycle stop s from trigger =
    released (run_cycle stop s from trigger) (run_cycle stop s from trigger).outcome
      (run_cycle-IsSettled stop s from trigger)
  where
    by_live :
        (r : CycleResult)
        → ((r.live ≡ some from) × (r.closed ≡ [])) ⊎ ((r.live ≡ none) × In from r.closed)
        → ((shutdown r).live ≡ none) × In from (shutdown r).closed
    by_live r (inl (live, _)) = rw (live, shutdown) (refl, inl refl)
    by_live r (inr (live, closed)) = rw (live, shutdown) (live, closed)

    left :
        (r : CycleResult) (to : LiveResidency)
        → (r.live ≡ some to) × (r.closed ≡ from ∷ [])
        → ((shutdown r).live ≡ none) × In from (shutdown r).closed
    left r to (live, closed) =
        rw (live, shutdown) (refl, inr (subst (In from) (sym closed) (inl refl)))

    released :
        (r : CycleResult) (o : CycleOutcome)
        → SettledBy from r o
        → ((shutdown r).live ≡ none) × In from (shutdown r).closed
    released r (cycled a to) (_, live, closed) = left r to (live, closed)
    released r (abandoned a to) (_, live, closed) = left r to (live, closed)
    released r (aborted n) (_, h) = by_live r h
    released r in_flight h = by_live r h
