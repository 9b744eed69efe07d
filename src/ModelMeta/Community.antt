-- ===== src/ModelMeta/Community.antt =====
-- model_meta.rs: what the community table holds.
use h_agent_core.Base.{
  ℕ, suc, ◌+◌, ◌≤◌, String, true, false, not, ◌&&◌, ◌||◌, List, [], ◌∷◌, Option, none, some, leb,
  if◌then◌else◌, length, ◌>>=◌, All, Bool-cases, ◌≡◌, ◌↔◌, refl, ◌∙◌, ap, inl, inr, arith,
}
use mathlib.Core.Path.{subst}
use h_agent_core.Value.{Value, Numbers, get, as_object}
use h_agent_core.Config.Profile.{ModelMeta}
use h_agent_core.Config.Registry.{codes_eq}
use h_agent_core.Config.Families.{codes_eq_sound, codes_eq_refl}
use h_agent_core.Config.Bounds.{AbsentOr}
use h_agent_core.Limits.Memory.{IsIn}
use h_agent_core.ModelMeta.{
  Table, or_else, meta_is_empty, find_model, or_insert, normalize_model_id, community_model,
  add_model, add_models, models_of, add_providers, community_providers, parse_community,
  sorted_or_none, wrapped,
}
use h_agent_core.ModelMeta.Slugs.{InOrder, sort_by_priority-InOrder}
use h_agent_core.ModelMeta.Limits.{bounded_u64-IsIn, bounded_u32-IsIn}

codes_eq_iff : (xs ys : List ℕ) → (codes_eq xs ys ≡ true) ↔ (xs ≡ ys)
codes_eq_iff xs ys =
    (codes_eq_sound xs ys, λ e. subst (λ l. codes_eq xs l ≡ true) e (codes_eq_refl xs))

-- The limits that a table may hold.
abbrev pub MetaInBounds : ModelMeta → Type 0
MetaInBounds m =
    AbsentOr (λ w. IsIn w 4096 10000000) m.context_window_tokens
    × AbsentOr (λ t. IsIn t 1024 131072) m.max_output_tokens

-- An entry says something, and what it says is in bounds.
abbrev pub EntryInBounds : List ℕ × ModelMeta → Type 0
EntryInBounds (id, meta) = MetaInBounds meta × (meta_is_empty meta ≡ false)

-- No two entries have the same id.
abbrev pub DistinctIds : Table → Type 0
DistinctIds [] = Unit
DistinctIds ((id, meta) ∷ table) = (find_model id table ≡ none) × DistinctIds table

find_model-or_insert :
    (j id : List ℕ) (meta : ModelMeta) (table : Table)
    → find_model j (or_insert id meta table)
      ≡ or_else (find_model j table) (if codes_eq id j then some meta else none)
unfolding find_model or_insert
find_model-or_insert j id meta [] = refl
find_model-or_insert j id meta ((k, old) ∷ table) = ground (
  arith,
  codes_eq_iff k id,
  codes_eq_iff k j,
  codes_eq_iff id j,
  find_model-or_insert j id meta table,
)

or_insert-DistinctIds :
    (id : List ℕ) (meta : ModelMeta) (table : Table)
    → DistinctIds table
    → DistinctIds (or_insert id meta table)
unfolding or_insert find_model
or_insert-DistinctIds id meta [] d = (refl, tt)
or_insert-DistinctIds id meta ((k, old) ∷ table) (n, d) = elim (Bool-cases (codes_eq k id)) [
  | inl e ↦ rw e (n, d)
  | inr e ↦ rw e (
    ground (arith, find_model-or_insert k id meta table, codes_eq_iff id k, codes_eq_iff k id),
    or_insert-DistinctIds id meta table d,
  )
]

or_insert-All :
    (P : List ℕ × ModelMeta → Type 0) (id : List ℕ) (meta : ModelMeta) (table : Table)
    → P (id, meta)
    → All P table
    → All P (or_insert id meta table)
unfolding or_insert
or_insert-All P id meta [] p h = (p, tt)
or_insert-All P id meta ((k, old) ∷ table) p (q, h) = elim (Bool-cases (codes_eq k id)) [
  | inl e ↦ rw e (q, h)
  | inr e ↦ rw e (q, or_insert-All P id meta table p h)
]

length-or_insert :
    (id : List ℕ) (meta : ModelMeta) (table : Table)
    → length (or_insert id meta table) ≤ suc (length table)
unfolding or_insert
length-or_insert id meta [] = omega arith
length-or_insert id meta ((k, old) ∷ table) = ground (arith, length-or_insert id meta table)

or_else_assoc : (a b c : Option ModelMeta) → or_else (or_else a b) c ≡ or_else a (or_else b c)
or_else_assoc none b c = refl
or_else_assoc (some a) b c = refl

-- What is kept of a table while it is filled.
abbrev pub TableInBounds : Table → Type 0
TableInBounds table = All EntryInBounds table × (length table ≤ 4096) × DistinctIds table

module _ {N : Type 0} ⦃n : Numbers N⦄ where
  add_model-InBounds :
      (table : Table) (id : String) (model : Value N)
      → TableInBounds table
      → TableInBounds (add_model table id model)
  unfolding add_model
  add_model-InBounds table id model (a, l, d) =
      let meta = community_model model in
      elim (Bool-cases (leb 4096 (length table) || meta_is_empty meta)) [
        | inl e ↦ rw e (a, l, d)
        | inr e ↦ rw e (
          or_insert-All EntryInBounds (normalize_model_id id) meta table
              (
                (
                  unfold community_model in bounded_u64-IsIn model _ 4096 10000000,
                  unfold community_model in bounded_u32-IsIn model _ 1024 131072,
                ),
                ground arith,
              )
              a,
          ground (arith, length-or_insert (normalize_model_id id) meta table),
          or_insert-DistinctIds (normalize_model_id id) meta table d,
        )
      ]

  add_models-InBounds :
      (table : Table) (models : List (String × Value N))
      → TableInBounds table
      → TableInBounds (add_models table models)
  unfolding add_models
  add_models-InBounds table [] h = h
  add_models-InBounds table ((id, model) ∷ models) h =
      add_models-InBounds (add_model table id model) models (add_model-InBounds table id model h)

  add_providers-InBounds :
      (table : Table) (providers : List (String × Value N))
      → TableInBounds table
      → TableInBounds (add_providers table providers)
  unfolding add_providers
  add_providers-InBounds table [] h = h
  add_providers-InBounds table ((slug, provider) ∷ providers) h =
      add_providers-InBounds (add_models table (models_of provider)) providers
        (add_models-InBounds table (models_of provider) h)

  -- Whatever the database answers, the table holds at most 4096 entries, no two of the same id,
  -- and each of them has a limit and only limits in bounds.
  pub parse_community-InBounds : (value : Value N) → TableInBounds (parse_community value)
  unfolding parse_community
  parse_community-InBounds value =
      add_providers-InBounds [] (community_providers value) (tt, omega arith, tt)

  -- What the first of the models of this id that has a limit says.
  abbrev first_model : List ℕ → List (String × Value N) → Option ModelMeta
  first_model j [] = none
  first_model j ((id, model) ∷ models) =
      if not (meta_is_empty (community_model model)) && codes_eq (normalize_model_id id) j
      then some (community_model model)
      else first_model j models

  abbrev pub first_provider : List ℕ → List (String × Value N) → Option ModelMeta
  first_provider j [] = none
  first_provider j ((slug, provider) ∷ providers) =
      or_else (first_model j (models_of provider)) (first_provider j providers)

  abbrev pub count_models : List (String × Value N) → ℕ
  count_models [] = 0
  count_models ((slug, provider) ∷ providers) = length (models_of provider) + count_models providers

  add_model-first :
      (j : List ℕ) (table : Table) (id : String) (model : Value N)
      → suc (length table) ≤ 4096
      → find_model j (add_model table id model)
        ≡ or_else (find_model j table) (
            if not (meta_is_empty (community_model model)) && codes_eq (normalize_model_id id) j
            then some (community_model model)
            else none)
  unfolding add_model
  add_model-first j table id model l =
      ground (arith, find_model-or_insert j (normalize_model_id id) (community_model model) table)

  length-add_model :
      (table : Table) (id : String) (model : Value N)
      → length (add_model table id model) ≤ suc (length table)
  unfolding add_model
  length-add_model table id model =
      ground (arith, length-or_insert (normalize_model_id id) (community_model model) table)

  add_models-first :
      (j : List ℕ) (table : Table) (models : List (String × Value N))
      → length table + length models ≤ 4096
      → (find_model j (add_models table models)
          ≡ or_else (find_model j table) (first_model j models))
        × (length (add_models table models) ≤ length table + length models)
  unfolding add_models
  add_models-first j table [] l = (ground arith, omega arith)
  add_models-first j table ((id, model) ∷ models) l =
      let (f, k) =
        add_models-first j (add_model table id model) models
          (omega (arith, length-add_model table id model)) in
      (
        ground (arith, f, add_model-first j table id model),
        omega (arith, k, length-add_model table id model),
      )

  add_providers-first :
      (j : List ℕ) (table : Table) (providers : List (String × Value N))
      → length table + count_models providers ≤ 4096
      → find_model j (add_providers table providers)
        ≡ or_else (find_model j table) (first_provider j providers)
  unfolding add_providers
  add_providers-first j table [] l = ground arith
  add_providers-first j table ((slug, provider) ∷ providers) l =
      let (f, k) = add_models-first j table (models_of provider) (omega arith) in
      add_providers-first j (add_models table (models_of provider)) providers (omega (arith, k))
      ∙ (ap (λ o. or_else o (first_provider j providers)) f
          ∙ or_else_assoc (find_model j table) (first_model j (models_of provider))
              (first_provider j providers))

  sorted_or_none-InOrder : (o : Option (List (String × Value N))) → InOrder (sorted_or_none o)
  sorted_or_none-InOrder none = tt
  sorted_or_none-InOrder (some ps) = sort_by_priority-InOrder ps

  community_providers-InOrder : (value : Value N) → InOrder (community_providers value)
  unfolding community_providers
  community_providers-InOrder value =
      sorted_or_none-InOrder
        (or_else (get value "models" >>= as_object) (wrapped (as_object value)))

  -- The providers are read in the order of their priorities, and a model gets the limits that the
  -- first of them with any limit for it reports, if there are no more than 4096 models in all.
  pub parse_community-first_provider :
      (value : Value N) (j : List ℕ)
      → count_models (community_providers value) ≤ 4096
      → InOrder (community_providers value)
        × (find_model j (parse_community value) ≡ first_provider j (community_providers value))
  unfolding parse_community find_model
  parse_community-first_provider value j h = (
    community_providers-InOrder value,
    add_providers-first j [] (community_providers value) (omega arith),
  )
