-- ===== src/Bridge/Stream.antt =====
-- What a consumer of bridge.rs makes of a replay with a live stream behind it.
use h_agent_core.Base.{
  ℕ, zero, suc, ◌+◌, ◌-◌, ◌≤◌, ◌≡◌, refl, sym, ap, ◌∙◌, inl, inr, true, List, [], ◌∷◌, ◌++◌, arith,
  ltb, length, length-append, length-drop, Bool-cases, take, take-append-drop, length-take, drop,
  drop-nil, drop-drop, if◌then◌else◌, ltb→lt, lt→ltb, ltb→le,
}
use mathlib.Core.Path.{◌≡⟨◌⟩◌, ◌∎, ap₂}
use h_agent_core.Protocol.{Envelope}
use h_agent_core.Bridge.{newer}
use h_agent_core.Bridge.History.{IsNumbered}
use h_agent_core.Bridge.Replay.{IsNumbered-suffix, newer-history}

module _ {V : Type 0} where
  -- The rule that the documentation of `subscribe_from` gives to consumers: skip every event
  -- whose cursor is not past the last one processed.
  unfoldable pub consume : ℕ → List (Envelope V) → List (Envelope V)
  consume last [] = []
  consume last (e ∷ es) =
      let taken = e ∷ consume e.cursor es in
      let skipped = consume last es in if ltb last e.cursor then taken else skipped

  consume-append :
      (last : ℕ) (xs ys : List (Envelope V))
      → IsNumbered last xs
      → consume last (xs ++ ys) ≡ xs ++ consume (last + length xs) ys
  unfolding consume
  consume-append last [] ys h = let e : last + 0 ≡ last = omega arith in rw e
  consume-append last (x ∷ xs) ys (c, h) =
      let e : last + suc (length xs) ≡ x.cursor + length xs = omega (arith, c) in
      let new : ltb last x.cursor ≡ true = lt→ltb _ _ (omega (arith, c)) in
      rw (new, e) (ap (λ t. x ∷ t) (consume-append x.cursor xs ys (rw c h)))

  consume-numbered :
      (n last : ℕ) (es : List (Envelope V)) → IsNumbered n es → consume last es ≡ drop (last - n) es
  unfolding consume
  consume-numbered n last [] h = sym (drop-nil (last - n))
  consume-numbered n last (e ∷ es) (c, h) = elim (Bool-cases (ltb last e.cursor)) [
    | inl new ↦
        let p : last - n ≡ 0 = omega (arith, ltb→lt last e.cursor new) in
        let q : e.cursor - e.cursor ≡ 0 = omega arith in
        rw (new, p) (ap (λ t. e ∷ t) (rw q at (consume-numbered e.cursor e.cursor es (rw c h))))
    | inr old ↦
        let p : last - n ≡ suc (last - suc n) = omega (arith, ltb→le last e.cursor old) in
        rw (old, p) (consume-numbered (suc n) last es h)
  ]

  IsNumbered-drop :
      (k : ℕ) (es : List (Envelope V)) → IsNumbered 0 es → k ≤ length es → IsNumbered k (drop k es)
  IsNumbered-drop k es h le =
      let n : length (take k es) ≡ k = omega (arith, length-take k es) in
      let m : 0 + k ≡ k = omega arith in
      rw (n, m) at (IsNumbered-suffix 0 (take k es) (drop k es) (rw (take-append-drop k es) h))

  pub drop-append_le :
      (k : ℕ) (xs ys : List (Envelope V)) → k ≤ length xs → drop k (xs ++ ys) ≡ drop k xs ++ ys
  drop-append_le zero xs ys h = refl
  drop-append_le (suc k) [] ys h = absurd (omega arith)
  drop-append_le (suc k) (x ∷ xs) ys h = drop-append_le k xs ys (omega arith)

  drop_self : (xs ys : List (Envelope V)) → drop (length xs) (xs ++ ys) ≡ ys
  drop_self [] ys = refl
  drop_self (x ∷ xs) ys = drop_self xs ys

  IsNumbered-prefix :
      (n : ℕ) (xs ys : List (Envelope V)) → IsNumbered n (xs ++ ys) → IsNumbered n xs
  IsNumbered-prefix n [] ys h = tt
  IsNumbered-prefix n (x ∷ xs) ys (c, h) = (c, IsNumbered-prefix (suc n) xs ys h)

  -- A replay up to one point of the history and a live stream from an earlier one make up the
  -- rest of the history.
  pub consume_overlap :
      (after position : ℕ) (old recent : List (Envelope V))
      → IsNumbered 0 (old ++ recent)
      → after ≤ length old
      → position ≤ length old
      → consume after (newer after old ++ drop position (old ++ recent))
        ≡ newer after (old ++ recent)
  consume_overlap after position old recent h p q =
      consume after (newer after old ++ drop position (old ++ recent))
      ≡⟨ ap (λ t. consume after (t ++ drop position (old ++ recent)))
          (newer-history after old numbered) ⟩
        consume after (drop after old ++ drop position (old ++ recent))
      ≡⟨ consume-append after (drop after old) _ (IsNumbered-drop after old numbered p) ⟩
        drop after old ++ consume (after + length (drop after old)) (drop position (old ++ recent))
      ≡⟨ ap₂ (λ t k. drop after old ++ consume k t) refl (omega (arith, length-drop after old)) ⟩
        drop after old ++ consume (length old) (drop position (old ++ recent))
      ≡⟨ ap (λ t. drop after old ++ t) later ⟩ drop after old ++ recent
      ≡⟨ sym (drop-append_le after old recent p) ⟩ drop after (old ++ recent)
      ≡⟨ sym (newer-history after (old ++ recent) h) ⟩ newer after (old ++ recent) ∎
    where
      numbered : IsNumbered 0 old
      numbered = IsNumbered-prefix 0 old recent h

      inside : position ≤ length (old ++ recent)
      inside = omega (arith, length-append old recent)

      later : consume (length old) (drop position (old ++ recent)) ≡ recent
      later =
          consume-numbered position (length old) _
            (IsNumbered-drop position (old ++ recent) h inside)
          ∙ drop-drop (length old - position) position (old ++ recent)
          ∙ ap (λ k. drop k (old ++ recent)) (omega arith)
          ∙ drop_self old recent
