-- ===== src/Controller/Arrivals.antt =====
-- controller.ts, `arriveWithRetry`: its calls, its backoff and its end.
use npc_of_the_internet.Shared.{
  ℕ, ◌+◌, ◌≤◌, ◌≡◌, refl, ap, ◌∙◌, inl, inr, Option, none, some, List, [], ◌∷◌, false, Text, nat_eq,
  text_eq, arith, All, In, Bool-cases, Option-cases,
}
use npc_of_the_internet.Controller.{
  LiveResidency, stopped, Attempt, Event, arriving, pausing, arrived, Arriving, doubled, pause,
  arrive_with_retry,
}

-- `arrive` is called before any shutdown, and no delay is above the cap.
abbrev pub IsOrderly : Option ℕ → ℕ → Event → Type 0
IsOrderly stop max (arriving moment door_id) = stopped stop moment ≡ false
IsOrderly stop max (pausing delay) = delay ≤ max

pause-IsOrderly :
    (stop : Option ℕ) (max moment delay : ℕ) (next : Arriving)
    → delay ≤ max
    → All (IsOrderly stop max) next.events
    → All (IsOrderly stop max) (pause stop moment delay next).events
pause-IsOrderly stop max moment delay next below h = elim (Bool-cases (stopped stop moment)) [
  | inl down ↦ rw down tt
  | inr up ↦ elim (Bool-cases (stopped stop (moment + 1))) [
    | inl down ↦ rw (up, down) (below, tt)
    | inr still_up ↦ rw (up, still_up) (below, h)
  ]
]

doubled_below : (delay max : ℕ) → doubled delay max ≤ max
doubled_below delay max = ground arith

module _ (choose : List Text → ℕ → (ℕ → ℕ) → Option Text) (stop : Option ℕ) (max : ℕ) where
  -- Whatever the attempts, the loop calls `arrive` only at moments with no shutdown before them, and
  -- waits no longer than the cap if its first delay is not above it.
  pub arrive_with_retry-IsOrderly :
      (moment failures delay : ℕ) (attempts : List Attempt)
      → delay ≤ max
      → All
          (IsOrderly stop max)
          (arrive_with_retry choose stop max moment failures delay attempts).events
  unfolding arrive_with_retry
  arrive_with_retry-IsOrderly moment failures delay [] below = tt
  arrive_with_retry-IsOrderly moment failures delay (a ∷ attempts) below =
      elim (Bool-cases (stopped stop moment)) [
        | inl down ↦ rw down tt
        | inr up ↦ elim (Bool-cases (stopped stop (moment + 1))) [
          | inl down ↦ rw (up, down) tt
          | inr still_up ↦
              rw (up, still_up)
                (elim (Option-cases (choose a.online failures a.draw)) [
                  | inl nowhere ↦ rw nowhere (
                      pause-IsOrderly stop max (moment + 1) delay _ below (
                        arrive_with_retry-IsOrderly (moment + 2) failures (doubled delay max)
                          attempts (doubled_below delay max)))
                  | inr (door_id, chosen) ↦ rw chosen (elim (Option-cases a.arrival) [
                    | inl refused ↦ rw refused (
                      still_up,
                      pause-IsOrderly stop max (moment + 2) delay _ below (
                          arrive_with_retry-IsOrderly (moment + 3) (failures + 1)
                            (doubled delay max) attempts (doubled_below delay max)),
                    )
                    | inr (epoch, success) ↦ rw success (still_up, tt)
                  ])
                ])
        ]
      ]

module _ (choose : List Text → ℕ → (ℕ → ℕ) → Option Text) (max : ℕ) where
  -- With no shutdown and an attempt that finds a Door and succeeds, the loop arrives.
  pub arrive_with_retry_progress :
      (moment failures delay : ℕ) (attempts : List Attempt) (a : Attempt) (epoch : ℕ)
      → In a attempts
      → a.arrival ≡ some epoch
      → ((n : ℕ) → (d : Text) × (choose a.online n a.draw ≡ some d))
      → (to : LiveResidency) × (at : ℕ) × ((arrive_with_retry choose none max moment failures delay
            attempts).arrival
          ≡ arrived to at)
  unfolding arrive_with_retry
  arrive_with_retry_progress moment failures delay [] a epoch h e c = absurd h
  arrive_with_retry_progress moment failures delay (x ∷ attempts) a epoch (inl same) e c =
      let (d, chosen) = c failures in
      (
        record { door_id = d; epoch = epoch },
        moment + 2,
        rw (ap (λ y. choose y.online failures y.draw) same ∙ chosen, ap (λ y. y.arrival) same ∙ e)
            refl,
      )
  arrive_with_retry_progress moment failures delay (x ∷ attempts) a epoch (inr there) e c =
      elim (Option-cases (choose x.online failures x.draw)) [
        | inl nowhere ↦ rw nowhere (
            arrive_with_retry_progress (moment + 2) failures (doubled delay max) attempts a epoch
              there e c)
        | inr (door_id, chosen) ↦ elim (Option-cases x.arrival) [
          | inl refused ↦
              rw (chosen, refused)
                (arrive_with_retry_progress (moment + 3) (failures + 1) (doubled delay max) attempts
                  a epoch there e c)
          | inr (n, success) ↦
              (record { door_id = door_id; epoch = n }, moment + 2, rw (chosen, success) refl)
        ]
      ]
