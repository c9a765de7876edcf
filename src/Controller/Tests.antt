-- ===== src/Controller/Tests.antt =====
-- Runs of the residency controller.
use npc_of_the_internet.Shared.{
  ℕ, false, ◌≡◌, ◌≢◌, refl, inl, inr, none, some, [], ◌∷◌, text, All, In, arith,
}
use npc_of_the_internet.Controller.{
  LiveResidency, Attempt, arriving, pausing, departed, failed, operator, lost_session, cycled,
  abandoned, aborted, Script, choose_next_door, run_cycle, shutdown,
}
use npc_of_the_internet.Controller.Arrivals.{IsOrderly}
use npc_of_the_internet.Controller.Cycles.{IsSettled, run_cycle-IsSettled, shutdown-run_cycle}
use npc_of_the_internet.Controller.Travels.{IsFinished, run_cycle-IsOrderly, run_cycle_finishes}

abbrev home : LiveResidency
home = record { door_id = text "a"; epoch = 7 }

abbrev first_draw : ℕ → ℕ
first_draw n = 0

abbrev offline : Attempt
offline = record { online = []; draw = first_draw; arrival = none }

abbrev welcome : Attempt
welcome = record { online = text "a" ∷ text "b" ∷ []; draw = first_draw; arrival = some 8 }

-- One failed attempt to depart, and one arrival loop round with no Door online.
abbrev script : Script
script = record {
  available = text "a" ∷ text "b" ∷ [];
  draw = first_draw;
  depart_retry_delays = 30 ∷ [];
  departs = failed false ∷ departed ∷ [];
  arrive_retry_base = 5;
  arrive_retry_max = 300;
  attempts = offline ∷ welcome ∷ [];
}

cycle_test : run_cycle none script home operator ≡ record {
  outcome = cycled home (record { door_id = text "b"; epoch = 8 });
  live = some (record { door_id = text "b"; epoch = 8 });
  closed = home ∷ [];
  events = pausing 5 ∷ arriving 9 (text "b") ∷ [];
}
unfolding run_cycle
cycle_test = refl

-- A shutdown while the arrival is in flight: it is released.
shutdown_test : run_cycle (some 10) script home operator ≡ record {
  outcome = aborted 7;
  live = none;
  closed = home ∷ record { door_id = text "b"; epoch = 8 } ∷ [];
  events = pausing 5 ∷ arriving 9 (text "b") ∷ [];
}
unfolding run_cycle
shutdown_test = refl

lost_session_test :
    (run_cycle none script home lost_session).outcome
    ≡ abandoned home (record { door_id = text "b"; epoch = 8 })
unfolding run_cycle
lost_session_test = refl

chosen_b :
    choose_next_door (text "a" ∷ text "b" ∷ []) (some (text "a")) first_draw ≡ some (text "b")
unfolding choose_next_door
chosen_b = refl

run_cycle-IsSettled_example : IsSettled home (run_cycle (some 10) script home operator)
run_cycle-IsSettled_example = run_cycle-IsSettled (some 10) script home operator

shutdown-run_cycle_example :
    ((shutdown (run_cycle (some 2) script home operator)).live ≡ none)
    × In home (shutdown (run_cycle (some 2) script home operator)).closed
shutdown-run_cycle_example = shutdown-run_cycle (some 2) script home operator

run_cycle-IsOrderly_example :
    All (IsOrderly (some 10) 300) (run_cycle (some 10) script home operator).events
run_cycle-IsOrderly_example = run_cycle-IsOrderly (some 10) script home operator (omega arith)

doors_online : welcome.online ≢ []
doors_online h = absurd (cc h)

run_cycle_finishes_example : IsFinished home (run_cycle none script home operator)
run_cycle_finishes_example =
    run_cycle_finishes script home operator welcome 8 (omega arith) (inr (inl refl)) refl
      doors_online
