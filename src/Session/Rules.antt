-- ===== src/Session/Rules.antt =====
-- session.ts: what a run keeps, returned or thrown.
use npc_of_the_internet.Shared.{Option, none, some, ◌≡◌, refl}
use npc_of_the_internet.Base64Url.{Decoded, ok, err}
use npc_of_the_internet.Session.{
  Moment, SessionFault, Outcome, returned, threw, Run, pure, or_raise, of_decoded, attempt, ◌>>=◌,
}

abbrev pub Ends :
    {E A : Type 0} → (Moment E → Type 0) → (A → Moment E → Type 0) → Moment E × Outcome A → Type 0
Ends I Q (s, returned a) = I s × Q a s
Ends I Q (s, threw fault) = I s

-- The run ends within `I`, and if it returns, with `Q` of what it returns.
pub record Keeps {E A : Type 0} (I : Moment E → Type 0) (Q : A → Moment E → Type 0)
    (end : Moment E × Outcome A) : Type 0 where
  pub ends : Ends I Q end

pub bind-Keeps :
    {E A B : Type 0} {I : Moment E → Type 0} {Q : A → Moment E → Type 0} {R : B → Moment E → Type 0}
    (m : Run E A) (f : A → Run E B) (s : Moment E)
    → Keeps I Q (m s)
    → ((a : A) (t : Moment E) → I t → Q a t → Keeps I R (f a t))
    → Keeps I R ((m >>= f) s)
unfolding ◌>>=◌
bind-Keeps {E} {A} {B} {I} {Q} {R} m f s h k = after (m s) h.ends
  where
    after :
        (end : Moment E × Outcome A)
        → Ends I Q end
        → Keeps I R (elim end.1 [ returned a ↦ f a end.0 | threw fault ↦ (end.0, threw fault) ])
    after (t, returned a) (i, q) = k a t i q
    after (t, threw fault) i = record { ends = i }

pub Keeps-weaken :
    {E A : Type 0} {I J : Moment E → Type 0} {Q R : A → Moment E → Type 0}
    (end : Moment E × Outcome A)
    → Keeps I Q end
    → ((t : Moment E) → I t → J t)
    → ((a : A) (t : Moment E) → I t → Q a t → R a t)
    → Keeps J R end
Keeps-weaken (t, returned a) h j k = record { ends = (j t h.ends.0, k a t h.ends.0 h.ends.1) }
Keeps-weaken (t, threw fault) h j k = record { ends = j t h.ends }

pub attempt-Keeps :
    {E A : Type 0} {I : Moment E → Type 0} {Q : A → Moment E → Type 0} (m : Run E A) (s : Moment E)
    → Keeps I Q (m s)
    → Keeps I (λ outcome t. Keeps I Q (t, outcome)) (attempt m s)
attempt-Keeps {E} {A} {I} {Q} m s h = after (m s) h.ends
  where
    after :
        (end : Moment E × Outcome A)
        → Ends I Q end
        → Keeps I (λ outcome t. Keeps I Q (t, outcome)) (end.0, returned end.1)
    after (t, returned a) (i, q) = record { ends = (i, record { ends = (i, q) }) }
    after (t, threw fault) i = record { ends = (i, record { ends = i }) }

pub pure-Keeps :
    {E A : Type 0} {I : Moment E → Type 0} {Q : A → Moment E → Type 0} (a : A) (s : Moment E)
    → I s
    → Q a s
    → Keeps I Q (pure a s)
pure-Keeps a s i q = record { ends = (i, q) }

pub or_raise-Keeps :
    {E A : Type 0} {I : Moment E → Type 0} (o : Option A) (fault : SessionFault) (s : Moment E)
    → I s
    → Keeps I (λ a t. (t ≡ s) × (o ≡ some a)) (or_raise o fault s)
or_raise-Keeps none fault s i = record { ends = i }
or_raise-Keeps (some a) fault s i = record { ends = (i, (refl, refl)) }

pub of_decoded-Keeps :
    {E A : Type 0} {I : Moment E → Type 0} (d : Decoded A) (s : Moment E)
    → I s
    → Keeps I (λ a t. t ≡ s) (of_decoded d s)
of_decoded-Keeps (ok a) s i = record { ends = (i, refl) }
of_decoded-Keeps (err e) s i = record { ends = i }
