-- ===== src/OpenAi/Frames.antt =====
-- provider/openai.rs: a stream as frames and a rest, and what more bytes add to it.
use h_agent_core.Base.{
  ℕ, zero, suc, ◌+◌, ◌≤◌, ◌<◌, Bool, true, List, [], ◌∷◌, ◌++◌, none, some, leb, length, drop, ◌≡◌,
  arith, Option-cases, inl, inr, all, length-drop,
}
use h_agent_core.OpenAi.Boundary.{
  next_frame, next_frame-nil, next_frame-append, find_from-some, FoundAt,
}

-- The bytes are these frames with their delimiters, and a rest in which no frame ends.
pub data Splits : List ℕ → List (List ℕ) → List ℕ → Type 0 where
  unfinished : {bs : List ℕ} → next_frame bs ≡ none → Splits bs [] bs
  frame_then :
      {bs frame later rest : List ℕ} {frames : List (List ℕ)}
      → next_frame bs ≡ some (frame, later)
      → Splits later frames rest
      → Splits bs (frame ∷ frames) rest

abbrev pub fit : ℕ → List (List ℕ) → Bool
fit max_frame_bytes frames = all (λ f. leb (length f) max_frame_bytes) frames

pub some-behind :
    (i : ℕ) (bs frame rest : List ℕ) → FoundAt i bs frame rest → length rest < length bs
some-behind i bs frame rest at =
    let e = length-drop (length frame + at.delimiter) bs in
    let shorter : length (drop (length frame + at.delimiter) bs) < length bs =
      rw e (omega (arith, at.nonempty, at.within)) in
    rw (← at.behind) shorter

Splits-within :
    (fuel : ℕ) (bs : List ℕ)
    → length bs ≤ fuel
    → (frames : List (List ℕ)) × ((rest : List ℕ) × Splits bs frames rest)
Splits-within zero [] h = ([], ([], unfinished next_frame-nil))
Splits-within zero (b ∷ bs) h = absurd (omega arith)
Splits-within (suc fuel) bs h = elim (Option-cases (next_frame bs)) [
  | inl e ↦ ([], (bs, unfinished e))
  | inr ((frame, later), e) ↦
      (let shorter = some-behind 0 bs frame later (find_from-some 0 bs frame later e) in
        let (frames, (rest, split)) = Splits-within fuel later (omega arith) in
        (frame ∷ frames, (rest, frame_then e split)))
]

-- All bytes are frames and a rest.
pub splits : (bs : List ℕ) → (frames : List (List ℕ)) × ((rest : List ℕ) × Splits bs frames rest)
splits bs = Splits-within (length bs) bs (omega arith)

-- What is left is searched again with the bytes that come later.
pub Splits-append :
    (later : List ℕ) {bs mid rest : List ℕ} {frames more : List (List ℕ)}
    → Splits bs frames mid
    → Splits (mid ++ later) more rest
    → Splits (bs ++ later) (frames ++ more) rest
Splits-append later (unfinished e) t = t
Splits-append later (frame_then e s) t =
    frame_then (next_frame-append _ _ _ _ e) (Splits-append later s t)

pub rest-unfinished :
    {bs rest : List ℕ} {frames : List (List ℕ)} → Splits bs frames rest → next_frame rest ≡ none
rest-unfinished (unfinished e) = e
rest-unfinished (frame_then e s) = rest-unfinished s

pub Splits-le :
    {bs rest : List ℕ} {frames : List (List ℕ)} → Splits bs frames rest → length rest ≤ length bs
Splits-le (unfinished e) = omega arith
Splits-le (frame_then {bs = bs} {frame = frame} {later = later} e s) =
    let l = some-behind 0 bs frame later (find_from-some 0 bs frame later e) in
    let ih = Splits-le s in omega arith

pub fit-append :
    (m : ℕ) (xs ys : List (List ℕ)) → fit m xs ≡ true → fit m ys ≡ true → fit m (xs ++ ys) ≡ true
fit-append m [] ys h k = k
fit-append m (x ∷ xs) ys h k = let ih = fit-append m xs ys in ground arith
