-- ===== src/Collector/Finish.antt =====
-- agent.rs: `StreamCollector::finish_partials`, which completes the calls that a stream left open.
use mathlib.Core.Path.{subst}
use mathlib.Core.Bool.{true≢false}
use text.Mathlib.TextEquality.{eq_iff}
use h_agent_core.Base.{
  ℕ, suc, ◌+◌, ◌≤◌, String, Bool, any, if◌then◌else◌, true, false, ◌||◌, List, [], ◌∷◌, ◌++◌, some,
  length, length-append, str_eq, ◌≡◌, refl, arith, Bool-cases, Option-cases, inl, inr, ◌⊎◌, sym,
  ◌∙◌, ap, ◌≢◌, ◌↔◌, All, All-append,
}
use h_agent_core.Protocol.{Json, ToolCall}
use h_agent_core.Collector.{
  StreamCollector, PartialToolCall, ok, err, finish_from, finish_partials, finished_call, skipped,
  arguments_or_empty,
}
use h_agent_core.Collector.Limits.{Partials}
use h_agent_core.Collector.Invariant.{IsBounded}

or-true : (a b : Bool) → (a || b) ≡ false → b ≡ false
or-true false b h = h
or-true true b h = ground arith

true_of_or : (a b : Bool) → b ≡ true → (a || b) ≡ true
true_of_or a b h = ground arith

-- The call was completed under its id.
abbrev pub IsDone : List String → PartialToolCall → Type 0
IsDone [] p = ⊥
IsDone (id ∷ ids) p = (id ≡ p.id) ⊎ IsDone ids p

-- An open call of which nothing stands in the way: it was completed under its id, it has no name,
-- or its arguments are JSON, where no text at all stands for an empty object.
abbrev pub IsComplete : {V : Type 0} → Json V → List String → String × PartialToolCall → Type 0
IsComplete j ids (s, p) =
    IsDone ids p
    ⊎ ((p.name ≡ "")
        ⊎ (((p.arguments ≡ "") × ((v : _) × (j.parse "{}" ≡ some v)))
            ⊎ (((p.arguments ≡ "") → ⊥) × ((v : _) × (j.parse p.arguments ≡ some v)))))

-- The same by the tests of the code.
abbrev IsTested : {V : Type 0} → Json V → List String → String × PartialToolCall → Type 0
IsTested j ids (s, p) =
    (skipped ids p ≡ true) ⊎ ((v : _) × (j.parse (arguments_or_empty p.arguments) ≡ some v))

any-IsDone :
    (ids : List String) (p : PartialToolCall) → any (λ i. str_eq i p.id) ids ≡ true → IsDone ids p
any-IsDone [] p h = absurd (true≢false (sym h))
any-IsDone (id ∷ ids) p h = elim (Bool-cases (str_eq id p.id)) [
  | inl e ↦ inl ((eq_iff id p.id).0 e)
  | inr e ↦ inr (any-IsDone ids p (sym (ap (λ b. b || any (λ i. str_eq i p.id) ids) e) ∙ h))
]

IsDone-any :
    (ids : List String) (p : PartialToolCall) → IsDone ids p → any (λ i. str_eq i p.id) ids ≡ true
IsDone-any [] p h = elim h [ ]
IsDone-any (id ∷ ids) p (inl e) = rw ((eq_iff id p.id).1 e) refl
IsDone-any (id ∷ ids) p (inr h) = true_of_or (str_eq id p.id) _ (IsDone-any ids p h)

IsTested-IsComplete :
    {V : Type 0} (j : Json V) (ids : List String) (e : String × PartialToolCall)
    → IsTested j ids e
    → IsComplete j ids e
IsTested-IsComplete j ids (s, p) (inl h) = elim (Bool-cases (any (λ i. str_eq i p.id) ids)) [
  | inl d ↦ inl (any-IsDone ids p d)
  | inr d ↦ inr (inl ((eq_iff p.name "").0 (sym (ap (λ b. b || str_eq p.name "") d) ∙ h)))
]
IsTested-IsComplete j ids (s, p) (inr (v, h)) = elim (Bool-cases (str_eq p.arguments "")) [
  | inl e ↦ inr (
      inr (
        inl (
          (eq_iff p.arguments "").0 e,
          (v, sym (ap (λ b. j.parse (if b then "{}" else p.arguments)) e) ∙ h),
        )))
  | inr e ↦ inr (
      inr (
        inr (
          (λ same. true≢false (sym ((eq_iff p.arguments "").1 same) ∙ e)),
          (v, sym (ap (λ b. j.parse (if b then "{}" else p.arguments)) e) ∙ h),
        )))
]

IsComplete-IsTested :
    {V : Type 0} (j : Json V) (ids : List String) (e : String × PartialToolCall)
    → IsComplete j ids e
    → IsTested j ids e
IsComplete-IsTested j ids (s, p) (inl d) = inl (rw (IsDone-any ids p d) refl)
IsComplete-IsTested j ids (s, p) (inr (inl n)) =
    inl (true_of_or (any (λ i. str_eq i p.id) ids) _ ((eq_iff p.name "").1 n))
IsComplete-IsTested j ids (s, p) (inr (inr (inl (e, (v, h))))) =
    inr (v, ap (λ b. j.parse (if b then "{}" else p.arguments)) ((eq_iff p.arguments "").1 e) ∙ h)
IsComplete-IsTested j ids (s, p) (inr (inr (inr (n, (v, h))))) =
    elim (Bool-cases (str_eq p.arguments "")) [
      | inl e ↦ absurd (n ((eq_iff p.arguments "").0 e))
      | inr e ↦ inr (v, ap (λ b. j.parse (if b then "{}" else p.arguments)) e ∙ h)
    ]

parsed :
    {V : Type 0} (j : Json V) (ids : List String) (s : String) (p : PartialToolCall)
    → IsTested j ids (s, p)
    → skipped ids p ≡ false
    → (v : V) × (j.parse (arguments_or_empty p.arguments) ≡ some v)
parsed j ids s p (inl e) f = absurd (true≢false (sym e ∙ f))
parsed j ids s p (inr found) f = found

err≢ok : {e : String} → err e ≢ ok (tt {0})
err≢ok h = subst (λ r. elim r [ ok a ↦ ⊥ | err e ↦ Unit {0} ]) h tt

All-both :
    {A : Type 0} (P Q : A → Type 0) → ((x : A) → P x → Q x) → (xs : List A) → All P xs → All Q xs
All-both P Q f [] h = tt
All-both P Q f (x ∷ xs) (p, h) = (f x p, All-both P Q f xs h)

module _ {V : Type 0} ⦃j : Json V⦄ where
  -- A call that the runner can dispatch.
  abbrev pub IsNamed : ToolCall V → Type 0
  IsNamed call = str_eq call.name "" ≡ false

  finish_from-IsNamed :
      (uuid : ℕ → String) (kind : String) (ids : List String) (n : ℕ) (ps : Partials)
      (calls : List (ToolCall V))
      → All IsNamed calls
      → All IsNamed (finish_from uuid kind ids n ps calls).0
  unfolding finish_from
  finish_from-IsNamed uuid kind ids n [] calls h = h
  finish_from-IsNamed uuid kind ids n ((s, p) ∷ ps) calls h = elim (Bool-cases (skipped ids p)) [
    | inl e ↦ rw e (finish_from-IsNamed uuid kind ids (suc n) ps calls h)
    | inr e ↦ rw e (elim (Option-cases (j.parse (arguments_or_empty p.arguments))) [
      | inl g ↦ rw g h
      | inr (v, g) ↦ rw g (
          finish_from-IsNamed uuid kind ids (suc n) ps (calls ++ finished_call uuid n p v ∷ [])
            (All-append IsNamed calls (finished_call uuid n p v ∷ []) h (or-true _ _ e, tt)))
    ])
  ]

  finish_from-length :
      (uuid : ℕ → String) (kind : String) (ids : List String) (n : ℕ) (ps : Partials)
      (calls : List (ToolCall V))
      → length (finish_from uuid kind ids n ps calls).0 ≤ length ps + length calls
  unfolding finish_from
  finish_from-length uuid kind ids n [] calls = omega arith
  finish_from-length uuid kind ids n ((s, p) ∷ ps) calls = elim (Bool-cases (skipped ids p)) [
    | inl e ↦ rw e (let ih = finish_from-length uuid kind ids (suc n) ps calls in omega arith)
    | inr e ↦ rw e (elim (Option-cases (j.parse (arguments_or_empty p.arguments))) [
      | inl g ↦ rw g (omega arith)
      | inr (v, g) ↦ rw g (
          let more = calls ++ finished_call uuid n p v ∷ [] in
          let ih = finish_from-length uuid kind ids (suc n) ps more in
          let l = length-append calls (finished_call uuid n p v ∷ []) in omega arith)
    ])
  ]

  -- What `finish_partials` leaves of a bounded collector, whether or not it fails: no open call,
  -- no more complete calls than the limit, and a name on each of them when those that were
  -- complete before had one.
  pub finish_partials-IsNamed :
      (uuid : ℕ → String) (c : StreamCollector V) (kind : String)
      → IsBounded c
      → All IsNamed c.completed_calls
      → ((finish_partials uuid c kind).0.partials ≡ [])
        × (length (finish_partials uuid c kind).0.completed_calls ≤ c.max_tool_calls)
        × All IsNamed (finish_partials uuid c kind).0.completed_calls
  unfolding finish_partials
  finish_partials-IsNamed uuid c kind b named =
      let l = finish_from-length uuid kind c.completed_ids 0 c.partials c.completed_calls in
      let n = b.calls in
      (
        refl,
        omega arith,
        finish_from-IsNamed uuid kind c.completed_ids 0 c.partials c.completed_calls named,
      )

  finish_from_ok :
      (uuid : ℕ → String) (kind : String) (ids : List String) (n : ℕ) (ps : Partials)
      (calls : List (ToolCall V))
      → All (IsTested j ids) ps
      → (finish_from uuid kind ids n ps calls).1 ≡ ok tt
  unfolding finish_from
  finish_from_ok uuid kind ids n [] calls h = refl
  finish_from_ok uuid kind ids n ((s, p) ∷ ps) calls (here, h) = elim (Bool-cases (skipped ids p)) [
    | inl e ↦ rw e (finish_from_ok uuid kind ids (suc n) ps calls h)
    | inr e ↦
        let (v, g) = parsed j ids s p here e in
        rw e (rw g (finish_from_ok uuid kind ids (suc n) ps _ h))
  ]

  finish_from_skip :
      (uuid : ℕ → String) (kind : String) (ids : List String) (n : ℕ) (s : String)
      (p : PartialToolCall) (ps : Partials) (calls : List (ToolCall V))
      → skipped ids p ≡ true
      → finish_from uuid kind ids n ((s, p) ∷ ps) calls ≡ finish_from uuid kind ids (suc n) ps calls
  unfolding finish_from
  finish_from_skip uuid kind ids n s p ps calls e = rw e refl

  finish_from_parsed :
      (uuid : ℕ → String) (kind : String) (ids : List String) (n : ℕ) (s : String)
      (p : PartialToolCall) (ps : Partials) (calls : List (ToolCall V))
      → skipped ids p ≡ false
      → (finish_from uuid kind ids n ((s, p) ∷ ps) calls).1 ≡ ok tt
      → (v : V) × (j.parse (arguments_or_empty p.arguments) ≡ some v)
        × ((finish_from uuid kind ids (suc n) ps (calls ++ finished_call uuid n p v ∷ [])).1
            ≡ ok tt)
  unfolding finish_from
  finish_from_parsed uuid kind ids n s p ps calls e =
      rw e (elim (Option-cases (j.parse (arguments_or_empty p.arguments))) [
        | inl g ↦ rw g (λ h. absurd (err≢ok h))
        | inr (v, g) ↦ rw g (λ h. (v, refl, h))
      ])

  finish_from-IsTested :
      (uuid : ℕ → String) (kind : String) (ids : List String) (n : ℕ) (ps : Partials)
      (calls : List (ToolCall V))
      → (finish_from uuid kind ids n ps calls).1 ≡ ok tt
      → All (IsTested j ids) ps
  finish_from-IsTested uuid kind ids n [] calls h = tt
  finish_from-IsTested uuid kind ids n ((s, p) ∷ ps) calls h = elim (Bool-cases (skipped ids p)) [
    | inl e ↦
        let skip = finish_from_skip uuid kind ids n s p ps calls e in
        (inl e, finish_from-IsTested uuid kind ids (suc n) ps calls (ap (λ r. r.1) (sym skip) ∙ h))
    | inr e ↦
        let (v, g, k) = finish_from_parsed uuid kind ids n s p ps calls e h in
        (inr (v, g), finish_from-IsTested uuid kind ids (suc n) ps _ k)
  ]

  -- `finish_partials` succeeds exactly when every open call was completed under its id, or has no name, or has arguments that are JSON, where an empty text stands for `{}`.
  pub finish_partials_iff :
      (uuid : ℕ → String) (c : StreamCollector V) (kind : String)
      → ((finish_partials uuid c kind).1 ≡ ok tt) ↔ All (IsComplete j c.completed_ids) c.partials
  unfolding finish_partials
  finish_partials_iff uuid c kind = (
    λ h.
        All-both (IsTested j c.completed_ids) (IsComplete j c.completed_ids)
          (IsTested-IsComplete j c.completed_ids) c.partials
          (finish_from-IsTested uuid kind c.completed_ids 0 c.partials c.completed_calls h),
    λ h. finish_from_ok uuid kind c.completed_ids 0 c.partials c.completed_calls (
        All-both (IsComplete j c.completed_ids) (IsTested j c.completed_ids)
          (IsComplete-IsTested j c.completed_ids) c.partials h),
  )
