-- ===== src/Config/Bounds.antt =====
-- config.rs: what holds of every configuration that `load` returns.
use h_agent_core.Base.{
  ℕ, ◌*◌, ◌≤◌, true, Option, none, some, Result, ok, err, All, all, kib, mib, ◌≡◌, refl,
}
use h_agent_core.Limits.{F32, ServerConfig, RuntimeConfig, ClusterConfig, CompactionConfig}
use h_agent_core.Limits.Memory.{IsIn}
use h_agent_core.Limits.Memory as MemoryLimits
use h_agent_core.Limits.Compaction as CompactionLimits
use h_agent_core.Config.Profile.{ProviderConfig}
use h_agent_core.Config.Settings.{Config, BrowserConfig, McpServerConfig}
use h_agent_core.Config.Load.{LoadError, ◌>>=◌, is_permission}

abbrev pub AbsentOr : (ℕ → Type 0) → Option ℕ → Type 0
AbsentOr P none = Unit
AbsentOr P (some n) = P n

pub record ProviderInBounds (p : ProviderConfig) : Type 0 where
  pub attempts : p.retry_max_attempts ≤ 5
  pub initial : IsIn p.retry_initial_backoff_ms 100 2000
  pub longest : IsIn p.retry_max_backoff_ms 1000 30000
  pub window : AbsentOr (λ w. IsIn w 4096 10000000) p.context_window_tokens
  pub output : AbsentOr (λ w. IsIn w 64 64000) p.max_output_tokens

pub bind_ok :
    {A B : Type 0} (m : Result LoadError A) (f : A → Result LoadError B) {b : B}
    → (m >>= f) ≡ ok b
    → (a : A) × (m ≡ ok a) × (f a ≡ ok b)
bind_ok (ok a) f h = (a, refl, h)
bind_ok (err e) f h = cc

pub ok_inj : {A : Type 0} {a b : A} → ◌≡◌ {A = Result LoadError A} (ok a) (ok b) → a ≡ b
ok_inj h = cc

pub record ServerInBounds (s : ServerConfig) : Type 0 where
  pub port : IsIn s.port 1024 65535
  pub buffer : IsIn s.event_buffer 16 4096
  pub bytes : IsIn s.event_max_bytes mib (16 * mib)
  pub timeout : IsIn s.approval_timeout_seconds 10 3600

pub record RuntimeInBounds (r : RuntimeConfig) : Type 0 where
  pub sessions : IsIn r.max_background_sessions 2 64
  pub file_bytes : IsIn r.checkpoint_max_file_bytes (4 * kib) (8 * mib)
  pub session_bytes : IsIn r.checkpoint_max_session_bytes mib (256 * mib)

pub record ClusterInBounds (c : ClusterConfig) : Type 0 where
  pub children : (n : ℕ) × (c.max_parallel_children ≡ some n) × IsIn n 1 32
  pub timeout : IsIn c.child_active_timeout_seconds 30 3600
  pub output : IsIn c.child_max_output_bytes (16 * kib) mib
  pub tool_output : IsIn c.child_max_tool_output_bytes (4 * kib) mib
  pub items : IsIn c.child_max_context_items 4 200
  pub bytes : IsIn c.child_max_context_bytes (16 * kib) mib

pub record BrowserInBounds (b : BrowserConfig) : Type 0 where
  pub timeout : IsIn b.timeout_seconds 1 3600
  pub output : b.max_output_bytes ≤ 8 * mib
  pub keep_alive : b.keep_alive_seconds ≤ 300

abbrev McpInBounds : McpServerConfig → Type 0
McpInBounds s = IsIn s.timeout_seconds 1 3600 × IsIn s.max_output_bytes 1024 (8 * mib)

-- The bounds of a configuration. The ratios of the compaction are `f32::clamp` of what they were.
pub record InBounds {F : Type 0} ⦃f : F32 F⦄ (c : Config F) : Type 0 where
  pub provider : ProviderInBounds c.provider
  pub memory : MemoryLimits.IsNormal c.memory
  pub compaction : (before : CompactionConfig F) × CompactionLimits.IsNormal before c.compaction
  pub ttl_hours : IsIn c.model_metadata.ttl_hours 1 168
  pub metadata_timeout : IsIn c.model_metadata.timeout_ms 1000 15000
  pub browser : BrowserInBounds c.browser
  pub server : ServerInBounds c.server
  pub runtime : RuntimeInBounds c.runtime
  pub cluster : ClusterInBounds c.cluster
  pub permissions : all is_permission c.permissions ≡ true
  pub servers : All McpInBounds c.mcp_servers
