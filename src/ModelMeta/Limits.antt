-- ===== src/ModelMeta/Limits.antt =====
-- model_meta.rs: the limits that are read from a list or a database are in range.
use h_agent_core.Base.{
  ℕ, String, ◌&&◌, List, [], ◌∷◌, Option, none, some, leb, ◌>>=◌, Bool-cases, inl, inr, arith,
}
use h_agent_core.Value.{Value, Numbers, get}
use h_agent_core.Config.Bounds.{AbsentOr}
use h_agent_core.Limits.Memory.{IsIn}
use h_agent_core.ModelMeta.{or_else, in_range, json_u64, try_u32, bounded_u64, bounded_u32}

pub or_else-AbsentOr :
    (P : ℕ → Type 0) (a b : Option ℕ) → AbsentOr P a → AbsentOr P b → AbsentOr P (or_else a b)
or_else-AbsentOr P none b h k = k
or_else-AbsentOr P (some x) b h k = h

in_range-IsIn : (low high : ℕ) (v : ℕ) → AbsentOr (λ w. IsIn w low high) (in_range low high v)
in_range-IsIn low high v = elim (Bool-cases (leb low v && leb v high)) [
  | inl e ↦ rw e (ground arith)
  | inr e ↦ rw e tt
]

pub bind-AbsentOr :
    {A : Type 0} (P : ℕ → Type 0) (m : Option A) (f : A → Option ℕ)
    → ((a : A) → AbsentOr P (f a))
    → AbsentOr P (m >>= f)
bind-AbsentOr P none f h = tt
bind-AbsentOr P (some a) f h = h a

module _ {N : Type 0} ⦃n : Numbers N⦄ where
  pub bounded_u64-IsIn :
      (value : Value N) (fields : List String) (low high : ℕ)
      → AbsentOr (λ w. IsIn w low high) (bounded_u64 value fields low high)
  unfolding bounded_u64
  bounded_u64-IsIn value [] low high = tt
  bounded_u64-IsIn value (f ∷ fields) low high =
      or_else-AbsentOr (λ w. IsIn w low high) (get value f >>= json_u64 >>= in_range low high)
        (bounded_u64 value fields low high)
        (bind-AbsentOr _ (get value f >>= json_u64) (in_range low high) (in_range-IsIn low high))
        (bounded_u64-IsIn value fields low high)

  pub bounded_u32-IsIn :
      (value : Value N) (fields : List String) (low high : ℕ)
      → AbsentOr (λ w. IsIn w low high) (bounded_u32 value fields low high)
  unfolding bounded_u32
  bounded_u32-IsIn value [] low high = tt
  bounded_u32-IsIn value (f ∷ fields) low high =
      or_else-AbsentOr (λ w. IsIn w low high)
        (get value f >>= json_u64 >>= try_u32 >>= in_range low high)
        (bounded_u32 value fields low high)
        (bind-AbsentOr _ (get value f >>= json_u64 >>= try_u32) (in_range low high)
          (in_range-IsIn low high))
        (bounded_u32-IsIn value fields low high)
