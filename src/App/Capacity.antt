-- ===== src/App/Capacity.antt =====
-- app/runtime.rs: what the eviction from the background keeps.
use mathlib.Core.Bool.{true≢false}
use h_agent_core.Base.{
  ℕ, zero, suc, ◌≤◌, String, ◌≡◌, refl, sym, ◌∙◌, ◌⊎◌, inl, inr, Bool, true, false, not, ◌&&◌, [],
  ◌∷◌, Option, none, some, arith, ltb, leb, if◌then◌else◌, length, filter, All, Bool-cases, ltb→le,
}
use h_agent_core.App.{
  Background, Runtime, is_idle, take_oldest_idle, evict_rounds, evict_background_overflow,
}

-- A property of both ways of a conditional that is taken holds of the conditional.
pub pick {ℓ κ} :
    {A : Type ℓ} (P : A → Type κ) (b : Bool) (x y : A)
    → ((b ≡ true) × P x) ⊎ ((b ≡ false) × P y)
    → P (if b then x else y)
pick P b x y (inl (e, p)) = rw e p
pick P b x y (inr (e, p)) = rw e p

pub both : (a b : Bool) → (a && b) ≡ true → (a ≡ true) × (b ≡ true)
both a b h = (ground arith, ground arith)

leb→le : (m n : ℕ) → leb m n ≡ true → m ≤ n
leb→le m n h = ground arith

not_earlier : (idle : Bool) (m n : ℕ) → idle ≡ true → (idle && leb m n) ≡ false → n ≤ m
not_earlier idle m n h k = ground arith

module _ {V F : Type 0} where
  -- The runtimes that are at work: busy, with a task, or with an approval that waits.
  abbrev pub at_work : Background V F → Background V F
  at_work background = filter (λ e. not (is_idle e)) background

  abbrev pub AllAtWork : Background V F → Type 0
  AllAtWork background = All (λ e. is_idle e ≡ false) background

  -- What the search finds: nothing only if all are at work; else an idle runtime, parked no later
  -- than any other idle one, and the others.
  abbrev pub Taken : Background V F → Option ((String × Runtime V F) × Background V F) → Type 0
  Taken background none = AllAtWork background
  Taken background (some (oldest, rest)) =
      (is_idle oldest ≡ true)
      × (length background ≡ suc (length rest))
      × (at_work rest ≡ at_work background)
      × All (λ e. is_idle e ≡ true → (oldest.1).parked_at ≤ (e.1).parked_at) background

  relax_bound :
      (m n : ℕ) (es : Background V F)
      → m ≤ n
      → All (λ e. is_idle e ≡ true → n ≤ (e.1).parked_at) es
      → All (λ e. is_idle e ≡ true → m ≤ (e.1).parked_at) es
  relax_bound m n [] h all = tt
  relax_bound m n (e ∷ es) h (here, all) =
      ((λ i. let k = here i in omega arith), relax_bound m n es h all)

  bound_vacuously :
      (m : ℕ) (es : Background V F)
      → AllAtWork es
      → All (λ e. is_idle e ≡ true → m ≤ (e.1).parked_at) es
  bound_vacuously m [] h = tt
  bound_vacuously m (e ∷ es) (b, h) =
      ((λ i. absurd (true≢false (sym i ∙ b))), bound_vacuously m es h)

  at_work-cons_idle :
      (e : String × Runtime V F) (es : Background V F)
      → is_idle e ≡ true
      → at_work (e ∷ es) ≡ at_work es
  at_work-cons_idle e es h = rw h refl

  at_work-cons :
      (e : String × Runtime V F) (xs ys : Background V F)
      → at_work xs ≡ at_work ys
      → at_work (e ∷ xs) ≡ at_work (e ∷ ys)
  at_work-cons e xs ys h = rw h refl

  step-Taken :
      (e : String × Runtime V F) (es : Background V F)
      (found : Option ((String × Runtime V F) × Background V F))
      → take_oldest_idle es ≡ found
      → Taken es found
      → Taken (e ∷ es) (take_oldest_idle (e ∷ es))
  unfolding take_oldest_idle
  step-Taken e es none h taken = rw h (elim (Bool-cases (is_idle e)) [
    | inl i ↦
        pick (λ t. Taken (e ∷ es) t) (is_idle e) _ _
          (inl (
            i,
            (
              i,
              refl,
              sym (at_work-cons_idle e es i),
              ((λ k. omega arith), bound_vacuously _ es taken),
            ),
          ))
    | inr b ↦ pick (λ t. Taken (e ∷ es) t) (is_idle e) _ _ (inr (b, (b, taken)))
  ])
  step-Taken e es (some (oldest, rest)) h (idle_oldest, count, same, first) =
      let earlier = is_idle e && leb (e.1).parked_at (oldest.1).parked_at in
      rw h (elim (Bool-cases earlier) [
        | inl i ↦
            let (here, before) = both (is_idle e) _ i in
            pick (λ t. Taken (e ∷ es) t) earlier _ _
              (inl (
                i,
                (
                  here,
                  refl,
                  sym (at_work-cons_idle e es here),
                  ((λ k. omega arith), relax_bound _ _ es (leb→le _ _ before) first),
                ),
              ))
        | inr b ↦
            pick (λ t. Taken (e ∷ es) t) earlier _ _
              (inr (
                b,
                (
                  idle_oldest,
                  omega (arith, count),
                  at_work-cons e rest es same,
                  ((λ k. not_earlier (is_idle e) _ _ k b), first),
                ),
              ))
      ])

  pub take_oldest_idle-Taken : (es : Background V F) → Taken es (take_oldest_idle es)
  unfolding take_oldest_idle
  take_oldest_idle-Taken [] = tt
  take_oldest_idle-Taken (e ∷ es) =
      step-Taken e es (take_oldest_idle es) refl (take_oldest_idle-Taken es)

  -- What a background becomes when it is cut down to a capacity.
  pub record IsEvicted (capacity : ℕ) (before after : Background V F) : Type 0 where
    pub kept_at_work : at_work after ≡ at_work before
    pub fits : (length after ≤ capacity) ⊎ AllAtWork after
    pub fewer : length after ≤ length before

  round :
      (rounds capacity : ℕ) (background : Background V F)
      (found : Option ((String × Runtime V F) × Background V F))
      → ((rest : Background V F)
          → length rest ≤ rounds
          → IsEvicted capacity rest (evict_rounds rounds capacity rest))
      → Taken background found
      → length background ≤ suc rounds
      → IsEvicted capacity background (elim found [
        | none ↦ background
        | some (oldest, rest) ↦ evict_rounds rounds capacity rest
      ])
  round rounds capacity background none later taken h = record {
    kept_at_work = refl;
    fits = inr taken;
    fewer = omega arith;
  }
  round rounds capacity background (some (oldest, rest)) later (i, count, same, first) h =
      let r = later rest (omega (arith, count)) in
      record {
        kept_at_work = r.kept_at_work ∙ same;
        fits = r.fits;
        fewer = omega (arith, r.fewer, count);
      }

  evict_rounds-IsEvicted :
      (rounds capacity : ℕ) (background : Background V F)
      → length background ≤ rounds
      → IsEvicted capacity background (evict_rounds rounds capacity background)
  unfolding evict_rounds
  evict_rounds-IsEvicted zero capacity background h = record {
    kept_at_work = refl;
    fits = inl (omega arith);
    fewer = omega arith;
  }
  evict_rounds-IsEvicted (suc rounds) capacity background h =
      elim (Bool-cases (ltb capacity (length background))) [
        | inl over ↦ rw over (
            round rounds capacity background (take_oldest_idle background)
              (evict_rounds-IsEvicted rounds capacity) (take_oldest_idle-Taken background) h)
        | inr within ↦
            rw within
              (record { kept_at_work = refl; fits = inl (ltb→le _ _ within); fewer = omega arith })
      ]

  -- The eviction never takes out a runtime that is at work, and it ends with the background within
  -- its capacity or with all that is left of it at work.
  pub evict_background_overflow-IsEvicted :
      (capacity : ℕ) (background : Background V F)
      → IsEvicted capacity background (evict_background_overflow capacity background)
  unfolding evict_background_overflow
  evict_background_overflow-IsEvicted capacity background =
      evict_rounds-IsEvicted (length background) capacity background (omega arith)
