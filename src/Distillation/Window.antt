-- ===== src/Distillation/Window.antt =====
-- residency-transcript.ts: the live transcript is the longest run of latest lines within its caps.
use mathlib.Core.List.{append_assoc, append-nil}
use npc_of_the_internet.Shared.{
  ℕ, zero, suc, ◌+◌, ◌-◌, ◌≤◌, ◌<◌, ◌≡◌, refl, sym, ap, subst, ◌∙◌, ◌⊎◌, inl, inr, List, [], ◌∷◌,
  ◌++◌, true, false, length, drop, length-append, length-drop, arith, Bool-cases,
}
use npc_of_the_internet.Distillation.{
  TranscriptLine, Caps, ResidencyTranscript, empty_transcript, past_caps, shift_lines,
  record_transcript_line, record_transcript,
}

abbrev pub chars : List TranscriptLine → ℕ
chars [] = 0
chars (line ∷ rest) = length line.prose + chars rest

-- The lines are within the caps, or there is at most one.
abbrev pub Fits : Caps → List TranscriptLine → Type 0
Fits caps lines =
    (length lines ≤ 1) ⊎ ((length lines ≤ caps.max_lines) × (chars lines ≤ caps.max_chars))

past_caps-Fits :
    (caps : Caps) (lines : List TranscriptLine)
    → past_caps caps (length lines) (chars lines) ≡ false
    → Fits caps lines
unfolding past_caps
past_caps-Fits caps lines h = ground (arith, h)

past_caps-not_Fits :
    (caps : Caps) (lines : List TranscriptLine)
    → past_caps caps (length lines) (chars lines) ≡ true
    → ¬ Fits caps lines
unfolding past_caps
past_caps-not_Fits caps lines h fits = ground (arith, h, fits)

-- The transcript is the longest run of the latest of `all` lines that fits, and its count
-- is that run's.
pub record IsWindow (caps : Caps) (all : List TranscriptLine) (transcript : ResidencyTranscript)
    : Type 0 where
  pub dropped : ℕ
  pub within : dropped ≤ length all
  pub latest : transcript.lines ≡ drop dropped all
  pub counted : transcript.char_count ≡ chars transcript.lines
  pub fits : Fits caps transcript.lines
  pub longest : (n : ℕ) → n < dropped → ¬ Fits caps (drop n all)

chars-append : (xs ys : List TranscriptLine) → chars (xs ++ ys) ≡ chars xs + chars ys
chars-append [] ys = omega arith
chars-append (x ∷ xs) ys = omega (arith, chars-append xs ys)

drop_nil : (n : ℕ) → drop {A = TranscriptLine} n [] ≡ []
drop_nil zero = refl
drop_nil (suc n) = refl

drop-drop : (n m : ℕ) (xs : List TranscriptLine) → drop m (drop n xs) ≡ drop (n + m) xs
drop-drop zero m xs = ap (λ k. drop k xs) (omega arith)
drop-drop (suc n) m [] = drop_nil m ∙ sym (drop_nil (suc n + m))
drop-drop (suc n) m (x ∷ xs) = drop-drop n m xs ∙ ap (λ k. drop k (x ∷ xs)) shifted
  where
    shifted : suc (n + m) ≡ suc n + m
    shifted = omega arith

drop-append :
    (n : ℕ) (xs ys : List TranscriptLine) → n ≤ length xs → drop n (xs ++ ys) ≡ drop n xs ++ ys
drop-append zero xs ys h = refl
drop-append (suc n) [] ys h = absurd (omega (arith, h))
drop-append (suc n) (x ∷ xs) ys h = drop-append n xs ys (omega (arith, h))

-- A run that does not fit does not with further lines.
Fits-append : (caps : Caps) (xs ys : List TranscriptLine) → Fits caps (xs ++ ys) → Fits caps xs
Fits-append caps xs ys h = ground (arith, h, length-append xs ys, chars-append xs ys)

shift_lines-IsWindow :
    (caps : Caps) (xs : List TranscriptLine) (count : ℕ)
    → count ≡ chars xs
    → IsWindow caps xs (shift_lines caps xs count)
unfolding shift_lines past_caps
shift_lines-IsWindow caps [] count h = record {
  dropped = 0;
  within = omega arith;
  latest = refl;
  counted = h;
  fits = inl (omega arith);
  longest = λ n less. absurd (omega (arith, less));
}
shift_lines-IsWindow caps (x ∷ xs) count h =
    elim (Bool-cases (past_caps caps (length (x ∷ xs)) count)) [
      | inr fits ↦ rw fits record {
        dropped = 0;
        within = omega arith;
        latest = refl;
        counted = h;
        fits = past_caps-Fits caps (x ∷ xs) (ap (past_caps caps (length (x ∷ xs))) (sym h) ∙ fits);
        longest = λ n less. absurd (omega (arith, less));
      }
      | inl over ↦ rw over (
          later
            (past_caps-not_Fits caps (x ∷ xs)
              (ap (past_caps caps (length (x ∷ xs))) (sym h) ∙ over))
            (shift_lines-IsWindow caps xs (count - length x.prose) (omega (arith, h))))
    ]
  where
    least :
        ¬ Fits caps (x ∷ xs)
        → (w : IsWindow caps xs (shift_lines caps xs (count - length x.prose))) → (n : ℕ)
        → n < suc w.dropped
        → ¬ Fits caps (drop n (x ∷ xs))
    least over w zero less = over
    least over w (suc n) less = w.longest n (omega (arith, less))

    later :
        ¬ Fits caps (x ∷ xs)
        → IsWindow caps xs (shift_lines caps xs (count - length x.prose))
        → IsWindow caps (x ∷ xs) (shift_lines caps xs (count - length x.prose))
    later over w = record {
      dropped = suc w.dropped;
      within = omega (arith, w.within);
      latest = w.latest;
      counted = w.counted;
      fits = w.fits;
      longest = least over w;
    }

before_or_from : (n k : ℕ) → (n < k) ⊎ ((m : ℕ) × (n ≡ k + m))
before_or_from n zero = inr (n, omega arith)
before_or_from zero (suc k) = inl (omega arith)
before_or_from (suc n) (suc k) = elim (before_or_from n k) [
  | inl before ↦ inl (omega (arith, before))
  | inr (m, same) ↦ inr (m, omega (arith, same))
]

record_transcript_line-IsWindow :
    (caps : Caps) (all : List TranscriptLine) (line : TranscriptLine)
    (transcript : ResidencyTranscript)
    → IsWindow caps all transcript
    → IsWindow caps (all ++ line ∷ []) (record_transcript_line caps line transcript)
unfolding record_transcript_line
record_transcript_line-IsWindow caps all line transcript w =
    let pushed = transcript.lines ++ line ∷ [] in
    let v =
      shift_lines-IsWindow caps pushed (transcript.char_count + length line.prose)
        (omega (arith, w.counted, chars-append transcript.lines (line ∷ []))) in
    record {
      dropped = w.dropped + v.dropped;
      within = omega (
        arith,
        w.within,
        v.within,
        length-append all (line ∷ []),
        length-append transcript.lines (line ∷ []),
        ap (λ l. length l) w.latest,
        length-drop w.dropped all,
      );
      latest =
          v.latest
          ∙ ap (drop v.dropped) lines_pushed
          ∙ drop-drop w.dropped v.dropped (all ++ line ∷ []);
      counted = v.counted;
      fits = v.fits;
      longest = λ n less. elim (before_or_from n w.dropped) [
        | inl before ↦
            subst (λ l. ¬ Fits caps l)
              (sym (drop-append n all (line ∷ []) (omega (arith, before, w.within))))
              (λ h. w.longest n before (Fits-append caps (drop n all) (line ∷ []) h))
        | inr (m, same) ↦
            subst (λ l. ¬ Fits caps l)
              (ap (drop m) lines_pushed
                ∙ drop-drop w.dropped m (all ++ line ∷ [])
                ∙ ap (λ k. drop k (all ++ line ∷ [])) (sym same))
              (v.longest m (omega (arith, less, same)))
      ];
    }
  where
    lines_pushed : transcript.lines ++ line ∷ [] ≡ drop w.dropped (all ++ line ∷ [])
    lines_pushed =
        ap (λ l. l ++ line ∷ []) w.latest ∙ sym (drop-append w.dropped all (line ∷ []) w.within)

record_transcript-continues :
    (caps : Caps) (before lines : List TranscriptLine) (transcript : ResidencyTranscript)
    → IsWindow caps before transcript
    → IsWindow caps (before ++ lines) (record_transcript caps lines transcript)
unfolding record_transcript
record_transcript-continues caps before [] transcript w =
    subst (λ all. IsWindow caps all transcript) (sym (append-nil before)) w
record_transcript-continues caps before (line ∷ rest) transcript w =
    subst
      (λ all.
        IsWindow caps all
          (record_transcript caps rest (record_transcript_line caps line transcript)))
      (append_assoc before (line ∷ []) rest)
      (record_transcript-continues caps (before ++ line ∷ []) rest
        (record_transcript_line caps line transcript)
        (record_transcript_line-IsWindow caps before line transcript w))

-- After any lines, recorded one by one from the empty transcript, it is the longest run of the latest
-- of them within the caps, or the latest line alone, and its count is that run's.
pub record_transcript-IsWindow :
    (caps : Caps) (lines : List TranscriptLine)
    → IsWindow caps lines (record_transcript caps lines empty_transcript)
record_transcript-IsWindow caps lines =
    record_transcript-continues caps [] lines empty_transcript record {
      dropped = 0;
      within = omega arith;
      latest = refl;
      counted = refl;
      fits = inl (omega arith);
      longest = λ n less. absurd (omega (arith, less));
    }
