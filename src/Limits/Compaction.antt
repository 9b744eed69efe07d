-- ===== src/Limits/Compaction.antt =====
-- `CompactionConfig::normalize` (config/limits.rs).
use h_agent_core.Base.{
  ◌>>=◌, ℕ, ◌*◌, ◌≤◌, ◌≡◌, refl, Option, none, some, arith, clamp, clamp?-clamp, clamp_bounds, kib,
}
use h_agent_core.Limits.{F32, CompactionConfig, compaction_normalize, clamp_tokens}
use h_agent_core.Limits.Memory.{IsIn, step}

abbrev TokensIn : Option ℕ → Type 0
TokensIn none = Unit
TokensIn (some n) = IsIn n 4000 16000

-- The ranges of the counted fields. The two ratios are `f32::clamp` of what they were.
pub record IsNormal {F : Type 0} ⦃f : F32 F⦄ (c n : CompactionConfig F) : Type 0 where
  pub summary : IsIn n.max_summary_bytes (4 * kib) (256 * kib)
  pub retries : n.max_overflow_retries ≤ 3
  pub recent : TokensIn n.preserve_recent_tokens
  pub threshold : n.auto_threshold ≡ f.clamp c.auto_threshold (f.hundredths 60) (f.hundredths 90)
  pub target : n.target_ratio ≡ f.clamp c.target_ratio (f.hundredths 30) (f.hundredths 70)

tokens_step {ℓ κ} :
    {A : Type ℓ} (P : A → Type κ) (tokens : Option ℕ) (rest : Option ℕ → Option A)
    → ((t : Option ℕ) → TokensIn t → (a : A) × (rest t ≡ some a) × P a)
    → (a : A) × ((clamp_tokens tokens >>= rest) ≡ some a) × P a
tokens_step P none rest k = k none tt
tokens_step P (some n) rest k =
    rw (clamp?-clamp n 4000 16000 (omega arith))
      (k (some (clamp n 4000 16000)) (clamp_bounds n 4000 16000 (omega arith)))

module _ {F : Type 0} ⦃f : F32 F⦄ where
  -- Normalising never panics and puts every limit in range, the ratios by `f32::clamp`.
  pub compaction_normalize_total :
      (c : CompactionConfig F)
      → (n : CompactionConfig F) × (compaction_normalize c ≡ some n) × IsNormal c n
  unfolding compaction_normalize
  compaction_normalize_total c =
      step (IsNormal c) c.max_summary_bytes (4 * kib) (256 * kib) _ (omega arith) λ summary hs.
        step (IsNormal c) c.max_overflow_retries 0 3 _ (omega arith) λ retries hr.
          tokens_step (IsNormal c) c.preserve_recent_tokens _ λ recent ht. (
            _,
            refl,
            record { summary = hs; retries = hr.1; recent = ht; threshold = refl; target = refl },
          )
