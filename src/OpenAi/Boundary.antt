-- ===== src/OpenAi/Boundary.antt =====
-- provider/openai.rs: the first frame of a stream, as a definition that `SseDecoder` does not use,
-- and why bytes that come later do not move it.
use h_agent_core.Base.{
  ℕ, zero, suc, ◌+◌, ◌-◌, ◌≤◌, ◌<◌, true, false, List, [], ◌∷◌, ◌++◌, Option, none, some, ltb, ◌==◌,
  if◌then◌else◌, length, take, drop, ◌≡◌, ◌≢◌, refl, sym, ap, ◌∙◌, arith, Bool-cases, inl, inr,
}
use h_agent_core.OpenAi.Sse.{delimiter_len, find_from}

abbrev grow : ℕ → Option (List ℕ × List ℕ) → Option (List ℕ × List ℕ)
grow b none = none
grow b (some (frame, rest)) = some (b ∷ frame, rest)

abbrev after : List ℕ → Option (List ℕ × List ℕ) → Option (List ℕ × List ℕ)
after later none = none
after later (some (frame, rest)) = some (frame, rest ++ later)

-- The first frame, and what follows its delimiter.
unfoldable pub next_frame : List ℕ → Option (List ℕ × List ℕ)
next_frame [] = none
next_frame (b ∷ bs) =
    let later = grow b (next_frame bs) in
    if delimiter_len (b ∷ bs) == 0 then later else some ([], drop (delimiter_len (b ∷ bs)) (b ∷ bs))

delimiter_len-long :
    (bs later : List ℕ) → 4 ≤ length bs → delimiter_len (bs ++ later) ≡ delimiter_len bs
unfolding delimiter_len
delimiter_len-long [] later h = absurd (omega arith)
delimiter_len-long (a ∷ []) later h = absurd (omega arith)
delimiter_len-long (a ∷ b ∷ []) later h = absurd (omega arith)
delimiter_len-long (a ∷ b ∷ c ∷ []) later h = absurd (omega arith)
delimiter_len-long (a ∷ b ∷ c ∷ d ∷ bs) later h = refl

delimiter_len-le : (bs : List ℕ) → delimiter_len bs ≤ length bs
unfolding delimiter_len
delimiter_len-le [] = ground arith
delimiter_len-le (a ∷ []) = ground arith
delimiter_len-le (a ∷ b ∷ []) = ground arith
delimiter_len-le (a ∷ b ∷ c ∷ []) = ground arith
delimiter_len-le (a ∷ b ∷ c ∷ d ∷ bs) = ground arith

-- A delimiter that is there stays the same one.
delimiter_len-found :
    (bs later : List ℕ)
    → (delimiter_len bs == 0) ≡ false
    → delimiter_len (bs ++ later) ≡ delimiter_len bs
unfolding delimiter_len
delimiter_len-found [] later h = ground arith
delimiter_len-found (a ∷ []) later h = ground arith
delimiter_len-found (a ∷ b ∷ []) later h = ground arith
delimiter_len-found (a ∷ b ∷ c ∷ []) later h = ground arith
delimiter_len-found (a ∷ b ∷ c ∷ d ∷ bs) later h = refl

-- Before a frame's end there is no delimiter that later bytes could complete.
delimiter_len-absent :
    (b : ℕ) (bs later frame rest : List ℕ)
    → (delimiter_len (b ∷ bs) == 0) ≡ true
    → next_frame bs ≡ some (frame, rest)
    → (delimiter_len (b ∷ bs ++ later) == 0) ≡ true
unfolding delimiter_len next_frame
delimiter_len-absent b [] later frame rest h k = ground arith
delimiter_len-absent b (c ∷ []) later frame rest h k = ground arith
delimiter_len-absent b (c ∷ d ∷ []) later frame rest h k = ground arith
delimiter_len-absent b (c ∷ d ∷ e ∷ bs) later frame rest h k = h

drop-append_left : (n : ℕ) (xs ys : List ℕ) → n ≤ length xs → drop n (xs ++ ys) ≡ drop n xs ++ ys
drop-append_left zero xs ys h = refl
drop-append_left (suc n) [] ys h = absurd (omega arith)
drop-append_left (suc n) (x ∷ xs) ys h = drop-append_left n xs ys (omega arith)

grow-some :
    (b : ℕ) (o : Option (List ℕ × List ℕ)) (frame rest : List ℕ)
    → grow b o ≡ some (frame, rest)
    → (tail : List ℕ) × ((o ≡ some (tail, rest)) × (frame ≡ b ∷ tail))
grow-some b none frame rest h = ground arith
grow-some b (some (tail, r)) frame rest h = ground arith

no_frame : (frame rest : List ℕ) → next_frame [] ≢ some (frame, rest)
unfolding next_frame
no_frame frame rest h = ground arith

pub next_frame-nil : next_frame [] ≡ none
unfolding next_frame
next_frame-nil = refl

find_from-nil : (i : ℕ) → find_from i [] ≡ none
unfolding find_from
find_from-nil i = refl

pub next_frame-later :
    (b : ℕ) (bs : List ℕ)
    → (delimiter_len (b ∷ bs) == 0) ≡ true
    → next_frame (b ∷ bs) ≡ grow b (next_frame bs)
unfolding next_frame
next_frame-later b bs e = rw e refl

pub next_frame-here :
    (b : ℕ) (bs : List ℕ)
    → (delimiter_len (b ∷ bs) == 0) ≡ false
    → next_frame (b ∷ bs) ≡ some ([], drop (delimiter_len (b ∷ bs)) (b ∷ bs))
unfolding next_frame
next_frame-here b bs e = rw e refl

-- A complete frame stays the first one, whatever comes later.
pub next_frame-append :
    (bs later frame rest : List ℕ)
    → next_frame bs ≡ some (frame, rest)
    → next_frame (bs ++ later) ≡ some (frame, rest ++ later)
next_frame-append [] later frame rest h = absurd (no_frame frame rest h)
next_frame-append (b ∷ bs) later frame rest h = elim (Bool-cases (delimiter_len (b ∷ bs) == 0)) [
  | inl e ↦
      (let (tail, (k, f)) =
          grow-some b (next_frame bs) frame rest (sym (next_frame-later b bs e) ∙ h) in
        next_frame-later b (bs ++ later) (delimiter_len-absent b bs later tail rest e k)
        ∙ ap (λ o. grow b o) (next_frame-append bs later tail rest k)
        ∙ ap (λ t. some (t, rest ++ later)) (sym f))
  | inr e ↦
      (let n = delimiter_len (b ∷ bs) in
        let same = delimiter_len-found (b ∷ bs) later e in
        let cut = drop-append_left n (b ∷ bs) later (delimiter_len-le (b ∷ bs)) in
        let whole : some ([], drop n (b ∷ bs)) ≡ some (frame, rest) =
          sym (next_frame-here b bs e) ∙ h in
        next_frame-here b (bs ++ later) (ap (λ m. m == 0) same ∙ e)
        ∙ ap (λ m. some ([], drop m (b ∷ bs ++ later))) same
        ∙ ap (λ t. some ([], t)) cut
        ∙ ap (λ o. after later o) whole)
]

find_from-later :
    (i b : ℕ) (bs : List ℕ)
    → (delimiter_len (b ∷ bs) == 0) ≡ true
    → find_from i (b ∷ bs) ≡ find_from (suc i) bs
unfolding find_from
find_from-later i b bs e = rw e refl

find_from-here :
    (i b : ℕ) (bs : List ℕ)
    → (delimiter_len (b ∷ bs) == 0) ≡ false
    → find_from i (b ∷ bs) ≡ some (i, delimiter_len (b ∷ bs))
unfolding find_from
find_from-here i b bs e = rw e refl

grow-none : (b : ℕ) (o : Option (List ℕ × List ℕ)) → grow b o ≡ none → o ≡ none
grow-none b none h = refl
grow-none b (some (frame, rest)) h = ground arith

some_none : (a b : List ℕ) → ◌≢◌ {A = Option (List ℕ × List ℕ)} (some (a, b)) none
some_none a b h = ground arith

-- Where no frame ends there is no delimiter, neither here nor later.
next_frame-none :
    (b : ℕ) (bs : List ℕ)
    → next_frame (b ∷ bs) ≡ none
    → ((delimiter_len (b ∷ bs) == 0) ≡ true) × (next_frame bs ≡ none)
next_frame-none b bs h = elim (Bool-cases (delimiter_len (b ∷ bs) == 0)) [
  | inl e ↦ (e, grow-none b (next_frame bs) (sym (next_frame-later b bs e) ∙ h))
  | inr e ↦
      absurd
        (some_none [] (drop (delimiter_len (b ∷ bs)) (b ∷ bs)) (sym (next_frame-here b bs e) ∙ h))
]

pub find_from-none : (i : ℕ) (bs : List ℕ) → next_frame bs ≡ none → find_from i bs ≡ none
find_from-none i [] h = find_from-nil i
find_from-none i (b ∷ bs) h =
    let (e, k) = next_frame-none b bs h in find_from-later i b bs e ∙ find_from-none (suc i) bs k

-- Where a search from position `i` on finds the end of the first frame.
pub record FoundAt (i : ℕ) (bs frame rest : List ℕ) : Type 0 where
  pub delimiter : ℕ
  pub nonempty : 0 < delimiter
  pub found : find_from i bs ≡ some (i + length frame, delimiter)
  pub before : take (length frame) bs ≡ frame
  pub behind : drop (length frame + delimiter) bs ≡ rest
  pub within : length frame + delimiter ≤ length bs

some-pair :
    (a c b d : List ℕ)
    → ◌≡◌ {A = Option (List ℕ × List ℕ)} (some (a, b)) (some (c, d))
    → (a ≡ c) × (b ≡ d)
some-pair a c b d h = ground arith

found_later :
    (i b : ℕ) (bs frame rest : List ℕ)
    → (delimiter_len (b ∷ bs) == 0) ≡ true
    → FoundAt (suc i) bs frame rest
    → FoundAt i (b ∷ bs) (b ∷ frame) rest
found_later i b bs frame rest e at = record {
  delimiter = at.delimiter;
  nonempty = at.nonempty;
  found = find_from-later i b bs e ∙ at.found ∙ ap (λ k. some (k, at.delimiter)) (omega arith);
  before = ap (λ t. b ∷ t) at.before;
  behind =
      (let e : length (b ∷ frame) + at.delimiter ≡ suc (length frame + at.delimiter) =
          omega arith in
        rw e at.behind);
  within = omega (arith, at.within);
}

found_here :
    (i b : ℕ) (bs : List ℕ)
    → (delimiter_len (b ∷ bs) == 0) ≡ false
    → FoundAt i (b ∷ bs) [] (drop (delimiter_len (b ∷ bs)) (b ∷ bs))
found_here i b bs e = record {
  delimiter = delimiter_len (b ∷ bs);
  nonempty = ground arith;
  found = find_from-here i b bs e ∙ ap (λ k. some (k, delimiter_len (b ∷ bs))) (omega arith);
  before = refl;
  behind = ap (λ n. drop n (b ∷ bs)) (omega arith);
  within = omega (arith, delimiter_len-le (b ∷ bs));
}

-- The search finds the end of the first frame.
pub find_from-some :
    (i : ℕ) (bs frame rest : List ℕ) → next_frame bs ≡ some (frame, rest) → FoundAt i bs frame rest
find_from-some i [] frame rest h = absurd (no_frame frame rest h)
find_from-some i (b ∷ bs) frame rest h = elim (Bool-cases (delimiter_len (b ∷ bs) == 0)) [
  | inl e ↦
      (let (tail, (k, f)) =
          grow-some b (next_frame bs) frame rest (sym (next_frame-later b bs e) ∙ h) in
        rw f (found_later i b bs tail rest e (find_from-some (suc i) bs tail rest k)))
  | inr e ↦
      (let (f, r) =
          some-pair [] frame (drop (delimiter_len (b ∷ bs)) (b ∷ bs)) rest
            (sym (next_frame-here b bs e) ∙ h) in
        rw (← f) (rw (← r) (found_here i b bs e)))
]

-- The last three bytes and the new ones are all that has to be searched.
pub find_from-skip :
    (i : ℕ) (bs later : List ℕ)
    → next_frame bs ≡ none
    → find_from (i + (length bs - 3)) (drop (length bs - 3) (bs ++ later))
      ≡ find_from i (bs ++ later)
find_from-skip i [] later h = ap (λ k. find_from k later) (omega arith)
find_from-skip i (b ∷ bs) later h =
    let (e, k) = next_frame-none b bs h in
    let ih = find_from-skip (suc i) bs later k in
    elim (Bool-cases (ltb (length bs) 3)) [
      | inl l ↦
          (let z : suc (length bs) - 3 ≡ 0 = ground arith in
            let y : i + 0 ≡ i = omega arith in rw z (rw y refl))
      | inr l ↦
          (let z : suc (length bs) - 3 ≡ suc (length bs - 3) = ground arith in
            let y : i + suc (length bs - 3) ≡ suc i + (length bs - 3) = omega arith in
            let same = delimiter_len-long (b ∷ bs) later (ground arith) in
            rw z (rw y (ih ∙ sym (find_from-later i b (bs ++ later) (ap (λ n. n == 0) same ∙ e)))))
    ]
