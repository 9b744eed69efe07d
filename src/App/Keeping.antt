-- ===== src/App/Keeping.antt =====
-- app/runtime.rs: a runtime that is not idle is found after an eviction as it was before.
use mathlib.Core.Bool.{true≢false}
use mathlib.Core.Path.{subst}
use h_agent_core.Base.{
  ℕ, zero, suc, String, true, false, ◌&&◌, [], ◌∷◌, Option, none, some, if◌then◌else◌, str_eq,
  lookup, ltb, leb, length, ◌≡◌, refl, sym, ap, ◌∙◌, arith, Bool-cases, Option-cases, inl, inr,
}
use h_agent_core.Session.Events.{idle}
use h_agent_core.App.{
  Runtime, Background, is_idle, take_oldest_idle, evict_rounds, evict_background_overflow,
}
use h_agent_core.App.Capacity.{pick, both}

module _ {V F : Type 0} where
  -- The search for the oldest idle runtime leaves one that is not idle.
  Keeps : String → Runtime V F → Option ((String × Runtime V F) × Background V F) → Type 0
  Keeps id r none = Unit {0}
  Keeps id r (some (oldest, rest)) = lookup id rest ≡ some r

  runtime-inj : (r s : Runtime V F) → some r ≡ some s → r ≡ s
  runtime-inj r s h = ground arith

  behind_idle :
      (e : String × Runtime V F) (es : Background V F) (id : String) (r : Runtime V F)
      → lookup id (e ∷ es) ≡ some r
      → idle r.session ≡ false
      → is_idle e ≡ true
      → lookup id es ≡ some r
  behind_idle e es id r h w i = elim (Bool-cases (str_eq (e.0) id)) [
    | inl s ↦
        (let same : some (e.1) ≡ some r =
            sym (ap (λ b. if b then some (e.1) else lookup id es) s) ∙ h in
          absurd (true≢false (sym i ∙ ap (λ x. idle x.session) (runtime-inj (e.1) r same) ∙ w)))
    | inr s ↦ sym (ap (λ b. if b then some (e.1) else lookup id es) s) ∙ h
  ]

  lookup-same_head :
      (e : String × Runtime V F) (es rest : Background V F) (id : String) (r : Runtime V F)
      → lookup id (e ∷ es) ≡ some r
      → (lookup id es ≡ some r → lookup id rest ≡ some r)
      → lookup id (e ∷ rest) ≡ some r
  lookup-same_head e es rest id r h later = elim (Bool-cases (str_eq (e.0) id)) [
    | inl s ↦ rw s (sym (ap (λ b. if b then some (e.1) else lookup id es) s) ∙ h)
    | inr s ↦ rw s (later (sym (ap (λ b. if b then some (e.1) else lookup id es) s) ∙ h))
  ]

  Keeps-step :
      (e : String × Runtime V F) (es : Background V F) (id : String) (r : Runtime V F)
      (o : Option ((String × Runtime V F) × Background V F))
      → take_oldest_idle es ≡ o
      → lookup id (e ∷ es) ≡ some r
      → idle r.session ≡ false
      → (lookup id es ≡ some r → Keeps id r o)
      → Keeps id r (take_oldest_idle (e ∷ es))
  unfolding Keeps take_oldest_idle
  Keeps-step e es id r none t h w ih = rw t (elim (Bool-cases (is_idle e)) [
    | inl i ↦
        pick (λ o. Keeps id r o) (is_idle e) (some (e, es)) none
          (inl (i, behind_idle e es id r h w i))
    | inr i ↦ pick (λ o. Keeps id r o) (is_idle e) (some (e, es)) none (inr (i, tt))
  ])
  Keeps-step e es id r (some (oldest, rest)) t h w ih =
      let earlier = is_idle e && leb (e.1).parked_at (oldest.1).parked_at in
      rw t (elim (Bool-cases earlier) [
        | inl i ↦
            pick (λ o. Keeps id r o) earlier (some (e, es)) (some (oldest, e ∷ rest))
              (inl (i, behind_idle e es id r h w (both (is_idle e) _ i).0))
        | inr i ↦
            pick (λ o. Keeps id r o) earlier (some (e, es)) (some (oldest, e ∷ rest))
              (inr (i, lookup-same_head e es rest id r h ih))
      ])

  take_oldest_idle-Keeps :
      (es : Background V F) (id : String) (r : Runtime V F)
      → lookup id es ≡ some r
      → idle r.session ≡ false
      → Keeps id r (take_oldest_idle es)
  take_oldest_idle-Keeps [] id r h w = absurd (ground arith)
  take_oldest_idle-Keeps (e ∷ es) id r h w =
      Keeps-step e es id r (take_oldest_idle es) refl h w (λ k. take_oldest_idle-Keeps es id r k w)

  evict_rounds-lookup :
      (rounds capacity : ℕ) (es : Background V F) (id : String) (r : Runtime V F)
      → lookup id es ≡ some r
      → idle r.session ≡ false
      → lookup id (evict_rounds rounds capacity es) ≡ some r
  unfolding evict_rounds Keeps
  evict_rounds-lookup zero capacity es id r h w = h
  evict_rounds-lookup (suc rounds) capacity es id r h w =
      let kept = take_oldest_idle-Keeps es id r h w in
      elim (Bool-cases (ltb capacity (length es))) [
        | inr l ↦ rw l h
        | inl l ↦ elim (Option-cases (take_oldest_idle es)) [
          | inl n ↦ rw l (rw n h)
          | inr ((oldest, rest), n) ↦
              (let found : lookup id rest ≡ some r = subst (λ o. Keeps id r o) n kept in
                rw l (rw n (evict_rounds-lookup rounds capacity rest id r found w)))
        ]
      ]

  -- A runtime that is not idle is found after the eviction as it was before.
  pub evict_background_overflow-lookup :
      (capacity : ℕ) (background : Background V F) (id : String) (r : Runtime V F)
      → lookup id background ≡ some r
      → idle r.session ≡ false
      → lookup id (evict_background_overflow capacity background) ≡ some r
  unfolding evict_background_overflow
  evict_background_overflow-lookup capacity background id r h w =
      evict_rounds-lookup (length background) capacity background id r h w
