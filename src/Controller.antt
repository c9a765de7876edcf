-- ===== src/Controller.antt =====
-- runtime/src/residency/controller.ts: the choice of a Door and one cycle reside, depart, travel,
-- over whatever the Doors answer and whenever a shutdown lands.
pub mod Choice
pub mod Arrivals
pub mod Cycles
pub mod Travels
mod Tests
use npc_of_the_internet.Shared.{
  ℕ, suc, ◌+◌, ◌-◌, ◌*◌, Option, none, some, List, [], ◌∷◌, Bool, true, false, not, ◌&&◌, Text,
  length, get_elem?, ltb, leb, includes, option_beq, ◌==◌, nat_eq, text_eq, if◌then◌else◌,
}

-- `available.filter((doorId) => doorId !== current)`
pub others_than : Option Text → List Text → List Text
others_than current [] = []
others_than current (door_id ∷ available) =
    let rest = others_than current available in
    if option_beq (some door_id) current then rest else door_id ∷ rest

-- `draw n` is `Math.floor(random() * n)`.
pub choose_next_door : List Text → Option Text → (draw : ℕ → ℕ) → Option Text
unfolding others_than
choose_next_door available current draw =
    let others = others_than current available in
    let last = length others - 1 in
    if length others == 0
    then get_elem? available 0
    else get_elem? others (if ltb (draw (length others)) last then draw (length others) else last)

-- A live residency, less its calls.
pub record LiveResidency : Type 0 where
  pub door_id : Text
  pub epoch : ℕ

-- Moments are counted by awaits; a shutdown lands before one of them, or never.
abbrev pub stopped : Option ℕ → ℕ → Bool
stopped none moment = false
stopped (some shutdown) moment = leb shutdown moment

-- What one round of the arrival loop meets: the Doors online, the random draw, and the epoch of the
-- arrival, if it succeeds.
pub record Attempt : Type 0 where
  pub online : List Text
  pub draw : ℕ → ℕ
  pub arrival : Option ℕ

-- A call of `arrive`, or a wait with its delay.
pub data Event : Type 0 where
  arriving : (moment : ℕ) (door_id : Text) → Event
  pausing : (delay : ℕ) → Event

-- How the loop ends; it waits if the attempts given run out.
pub data Arrival : Type 0 where
  arrived : LiveResidency → (moment : ℕ) → Arrival
  interrupted : Arrival
  waiting : Arrival

pub record Arriving : Type 0 where
  pub arrival : Arrival
  pub events : List Event

abbrev pub event : Event → Arriving → Arriving
event e a = record a { events = e ∷ a.events }

abbrev pub halt : Arriving
halt = record { arrival = interrupted; events = [] }

abbrev pub doubled : ℕ → ℕ → ℕ
doubled delay max = if ltb (delay * 2) max then delay * 2 else max

-- `pause`: checks before and after the wait.
abbrev pub pause : Option ℕ → ℕ → ℕ → Arriving → Arriving
pause stop moment delay next =
    if stopped stop moment
    then halt
    else if stopped stop (moment + 1)
    then event (pausing delay) halt
    else event (pausing delay) next

module _ (choose : List Text → ℕ → (ℕ → ℕ) → Option Text) (stop : Option ℕ) (max : ℕ) where
  -- `arriveWithRetry` after `failures` failed arrivals
  pub arrive_with_retry : (moment failures delay : ℕ) → List Attempt → Arriving
  arrive_with_retry moment failures delay [] = record { arrival = waiting; events = [] }
  arrive_with_retry moment failures delay (a ∷ attempts) =
      if stopped stop moment
      then halt
      else if stopped stop (moment + 1)
      then halt
      else elim (choose a.online failures a.draw) [
        | none ↦
            pause stop (moment + 1) delay
              (arrive_with_retry (moment + 2) failures (doubled delay max) attempts)
        | some door_id ↦ event (arriving (moment + 1) door_id) (elim a.arrival [
          | some epoch ↦ record {
            arrival = arrived (record { door_id = door_id; epoch = epoch }) (moment + 2);
            events = [];
          }
          | none ↦
              pause stop (moment + 2) delay
                (arrive_with_retry (moment + 3) (failures + 1) (doubled delay max) attempts)
        ])
      ]

-- The Door of the next arrival of a cycle: the chosen one at first, if it is online.
pub cycle_choice : Option Text → (from_door : Text) → List Text → ℕ → (ℕ → ℕ) → Option Text
unfolding choose_next_door
cycle_choice none from_door online failures draw = choose_next_door online (some from_door) draw
cycle_choice (some next) from_door online failures draw =
    if failures == 0 && includes online next
    then some next
    else choose_next_door online (some from_door) draw

-- An attempt to depart: it succeeds, or fails, because the Door has closed the epoch or not.
pub data DepartAnswer : Type 0 where
  departed : DepartAnswer
  failed : (epoch_closed : Bool) → DepartAnswer

pub data Departing : Type 0 where
  gone : (moment : ℕ) → Departing
  gave_up : (moment : ℕ) → Departing
  depart_interrupted : Departing
  departing : Departing

-- The depart loop with the delays that are left.
pub depart_loop : Option ℕ → ℕ → List ℕ → List DepartAnswer → Departing
depart_loop stop moment delays [] = departing
depart_loop stop moment delays (departed ∷ answers) =
    if stopped stop moment then depart_interrupted else gone (moment + 1)
depart_loop stop moment delays (failed true ∷ answers) =
    if stopped stop moment then depart_interrupted else gave_up (moment + 1)
depart_loop stop moment [] (failed false ∷ answers) =
    if stopped stop moment then depart_interrupted else gave_up (moment + 1)
depart_loop stop moment (delay ∷ delays) (failed false ∷ answers) =
    let later = depart_loop stop (moment + 2) delays answers in
    if stopped stop moment
    then depart_interrupted
    else if stopped stop (moment + 1)
    then depart_interrupted
    else if stopped stop (moment + 2)
    then depart_interrupted
    else later

pub data CycleTrigger : Type 0 where
  operator timer lost_session : CycleTrigger

pub data CycleOutcome : Type 0 where
  cycled : (from to : LiveResidency) → CycleOutcome
  abandoned : (from to : LiveResidency) → CycleOutcome
  aborted : (from_epoch : ℕ) → CycleOutcome
  -- some answer is outstanding
  in_flight : CycleOutcome

-- The outcome, the live residency afterwards, and the residencies that the cycle closed.
pub record CycleResult : Type 0 where
  pub outcome : CycleOutcome
  pub live : Option LiveResidency
  pub closed : List LiveResidency
  pub events : List Event

-- What a cycle meets.
pub record Script : Type 0 where
  pub available : List Text
  pub draw : ℕ → ℕ
  pub depart_retry_delays : List ℕ
  pub departs : List DepartAnswer
  pub arrive_retry_base : ℕ
  pub arrive_retry_max : ℕ
  pub attempts : List Attempt

abbrev pub outcome_of : Bool → LiveResidency → LiveResidency → CycleOutcome
outcome_of true from to = cycled from to
outcome_of false from to = abandoned from to

-- The end of the cycle: the arrival, released again if a shutdown has landed.
pub settle : Option ℕ → Bool → LiveResidency → Arriving → CycleResult
settle stop departed? from a = elim a.arrival [
  | arrived to moment ↦
      if stopped stop moment
      then record {
        outcome = aborted from.epoch;
        live = none;
        closed = from ∷ to ∷ [];
        events = a.events;
      }
      else record {
        outcome = outcome_of departed? from to;
        live = some to;
        closed = from ∷ [];
        events = a.events;
      }
  | interrupted ↦ record {
    outcome = aborted from.epoch;
    live = none;
    closed = from ∷ [];
    events = a.events;
  }
  | waiting ↦ record { outcome = in_flight; live = none; closed = from ∷ []; events = a.events }
]

abbrev pub staying : LiveResidency → CycleOutcome → CycleResult
staying from outcome = record { outcome = outcome; live = some from; closed = []; events = [] }

-- After a departure or the end of its attempts: departure without memories if there was none, the
-- close of the old residency, and the arrival.
pub travel : Option ℕ → Script → LiveResidency → Bool → ℕ → CycleResult
unfolding settle arrive_with_retry cycle_choice choose_next_door
travel stop s from departed? moment =
    let next = choose_next_door s.available (some from.door_id) s.draw in
    let closed_at = if departed? then moment + 1 else moment + 2 in
    if stopped stop moment
    then staying from (aborted from.epoch)
    else settle stop departed? from (
        arrive_with_retry (cycle_choice next from.door_id) stop s.arrive_retry_max closed_at 0
          s.arrive_retry_base s.attempts)

abbrev pub depart_phase : Option ℕ → Script → CycleTrigger → Departing
depart_phase stop s lost_session = gave_up 2
depart_phase stop s _ = depart_loop stop 2 s.depart_retry_delays s.departs

-- `runCycle`: the socket is detached at moment 0, and the Doors are probed at moment 1.
pub run_cycle : Option ℕ → Script → LiveResidency → CycleTrigger → CycleResult
unfolding travel depart_loop
run_cycle stop s from trigger =
    if stopped stop 1
    then staying from (aborted from.epoch)
    else elim (depart_phase stop s trigger) [
      | gone moment ↦ travel stop s from true moment
      | gave_up moment ↦ travel stop s from false moment
      | depart_interrupted ↦ staying from (aborted from.epoch)
      | departing ↦ staying from in_flight
    ]

-- `shutdown` once the cycle in flight has settled: the live residency is closed, without departure.
pub shutdown : CycleResult → CycleResult
shutdown r = elim r.live [
  | none ↦ r
  | some residency ↦ record r { live = none; closed = residency ∷ r.closed }
]
