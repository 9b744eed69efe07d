-- ===== src/Config/Load.antt =====
-- config.rs, `Config::load`, from the parsed file on. The environment is a function, and what
-- `dirs` and the joining of paths give are arguments.
use h_agent_core.Base.{
  ℕ, ◌*◌, min, String, Bool, ◌||◌, List, [], ◌∷◌, Option, none, some, Result, ok, err, ltb, ◌==◌,
  if◌then◌else◌, all, map, one_of, codes, lower_codes, trim, is_empty, clamp, kib, mib,
}
use h_agent_core.Limits.{
  F32, ServerConfig, RuntimeConfig, ClusterConfig, memory_normalize, compaction_normalize,
}
use h_agent_core.Config.Types.{ProviderKind}
use h_agent_core.Config.Profile.{ProviderConfig, Url, validate, normalize_thinking}
use h_agent_core.Config.Registry.{codes_eq}
use h_agent_core.Config.Settings.{
  Config, ModelMetadataConfig, BrowserConfig, McpServerConfig, ensure_provider_profiles,
}

-- `load` returns an error, or a `clamp` panics.
pub data LoadError : Type 0 where
  bail : String → LoadError
  panic : LoadError

infixl 5 ◌>>=◌
abbrev pub ◌>>=◌ :
    {A B : Type 0} → Result LoadError A → (A → Result LoadError B) → Result LoadError B
ok a >>= f = f a
err e >>= f = err e

abbrev pub or_panic : {A : Type 0} → Option A → Result LoadError A
or_panic none = err panic
or_panic (some a) = ok a

abbrev pub or_bail : {A : Type 0} → Result String A → Result LoadError A
or_bail (ok a) = ok a
or_bail (err e) = err (bail e)

-- A variable that is set and not blank.
abbrev override : Option String → String → String
override none old = old
override (some value) old = if is_empty (trim value) then old else value

abbrev pub kind_override : Option String → ProviderKind → Result LoadError ProviderKind
kind_override none old = ok old
kind_override (some value) old =
    if codes_eq (lower_codes value) (codes "chat")
      || codes_eq (lower_codes value) (codes "chat_completions")
    then ok ProviderKind.chat_completions
    else if codes_eq (lower_codes value) (codes "responses")
    then ok ProviderKind.responses
    else err (bail "AGENT_PROVIDER must be 'chat' or 'responses'")

unfoldable pub overridden :
    (String → Option String) → ProviderConfig → Result LoadError ProviderConfig
overridden env p = do
  kind ← kind_override (env "AGENT_PROVIDER") p.kind
  ok (record p {
    base_url = override (env "AGENT_API_BASE") p.base_url;
    model = override (env "AGENT_MODEL") p.model;
    kind = kind;
  })

abbrev pub bounded_window : Option ℕ → Result LoadError (Option ℕ)
bounded_window none = ok none
bounded_window (some limit) =
    if ltb limit 4096
    then err (bail "provider.context_window_tokens must be at least 4096")
    else ok (some (min limit 10000000))

abbrev pub bounded_output : Option ℕ → Option ℕ
bounded_output none = none
bounded_output (some limit) = if limit == 0 then none else some (clamp limit 64 64000)

-- From `normalize_thinking` on.
unfoldable pub bounded_provider : ProviderConfig → Result LoadError ProviderConfig
bounded_provider p = do
  window ← bounded_window p.context_window_tokens
  ok (record (normalize_thinking p) {
    retry_max_attempts = clamp p.retry_max_attempts 0 5;
    retry_initial_backoff_ms = clamp p.retry_initial_backoff_ms 100 2000;
    retry_max_backoff_ms = clamp p.retry_max_backoff_ms 1000 30000;
    context_window_tokens = window;
    max_output_tokens = bounded_output p.max_output_tokens;
  })

unfoldable pub bounded_browser : BrowserConfig → Result LoadError BrowserConfig
bounded_browser b =
    if b.timeout_seconds == 0 || ltb 3600 b.timeout_seconds
    then err (bail "browser timeout must be between 1 and 3600 seconds")
    else ok (record b {
      max_output_bytes = min b.max_output_bytes (8 * mib);
      keep_alive_seconds = min b.keep_alive_seconds 300;
    })

unfoldable pub bounded_server : ServerConfig → ServerConfig
bounded_server s = record s {
  port = clamp s.port 1024 65535;
  event_buffer = clamp s.event_buffer 16 4096;
  event_max_bytes = clamp s.event_max_bytes mib (16 * mib);
  approval_timeout_seconds = clamp s.approval_timeout_seconds 10 3600;
}

unfoldable pub bounded_runtime : RuntimeConfig → RuntimeConfig
bounded_runtime r = record r {
  max_background_sessions = clamp r.max_background_sessions 2 64;
  checkpoint_max_file_bytes = clamp r.checkpoint_max_file_bytes (4 * kib) (8 * mib);
  checkpoint_max_session_bytes = clamp r.checkpoint_max_session_bytes mib (256 * mib);
}

abbrev unwrap_or : Option ℕ → ℕ → ℕ
unwrap_or none d = d
unwrap_or (some n) d = n

unfoldable pub bounded_cluster : ClusterConfig → ClusterConfig
bounded_cluster c = record {
  max_parallel_children = some (clamp (unwrap_or c.max_parallel_children 4) 1 32);
  child_active_timeout_seconds = clamp c.child_active_timeout_seconds 30 3600;
  child_max_output_bytes = clamp c.child_max_output_bytes (16 * kib) mib;
  child_max_tool_output_bytes = clamp c.child_max_tool_output_bytes (4 * kib) mib;
  child_max_context_items = clamp c.child_max_context_items 4 200;
  child_max_context_bytes = clamp c.child_max_context_bytes (16 * kib) mib;
}

unfoldable pub bounded_metadata : ModelMetadataConfig → ModelMetadataConfig
bounded_metadata m = record m {
  ttl_hours = clamp m.ttl_hours 1 168;
  timeout_ms = clamp m.timeout_ms 1000 15000;
}

unfoldable pub bounded_mcp_server : McpServerConfig → McpServerConfig
bounded_mcp_server s = record s {
  timeout_seconds = clamp s.timeout_seconds 1 3600;
  max_output_bytes = clamp s.max_output_bytes 1024 (8 * mib);
}

abbrev pub is_permission : String × String → Bool
is_permission (tool, permission) = one_of ("allow" ∷ "ask" ∷ "deny" ∷ []) permission

abbrev pub checked_permissions : List (String × String) → Result LoadError (Unit {0})
checked_permissions tools =
    if all is_permission tools then ok tt else err (bail "permission must be allow, ask, or deny")

-- `AGENT_DATA_DIR`, or a directory of the user, or one of the workspace.
unfoldable pub data_dir_of :
    (String → String → String) → Option String → Option String → String → String
data_dir_of join set local workspace =
    let fallback : String = elim local [
      | some path ↦ join path "1h-agent"
      | none ↦ join workspace ".1h-agent"
    ] in
    elim set [ none ↦ fallback | some value ↦ if is_empty value then fallback else value ]

module _ {F : Type 0} ⦃f : F32 F⦄ where
  unfoldable pub load :
      (String → Option String)
      → (String → Option Url)
      → (String → String → String)
      → Option String
      → String
      → Option String
      → Result String (Config F)
      → Result LoadError (Config F)
  load env parse_url join local workspace path file = do
    parsed ← or_bail file
    let config = ensure_provider_profiles parsed
    memory ← or_panic (memory_normalize config.memory)
    compaction ← or_panic (compaction_normalize config.compaction)
    chosen ← overridden env config.provider
    valid ← or_bail (validate parse_url chosen)
    provider ← bounded_provider valid
    browser ← bounded_browser config.browser
    checked ← checked_permissions config.permissions
    ok (record config {
      provider = provider;
      memory = memory;
      compaction = compaction;
      model_metadata = bounded_metadata config.model_metadata;
      browser = browser;
      server = bounded_server config.server;
      runtime = bounded_runtime config.runtime;
      cluster = bounded_cluster config.cluster;
      mcp_servers = map bounded_mcp_server config.mcp_servers;
      data_dir = data_dir_of join (env "AGENT_DATA_DIR") local workspace;
      config_path = path;
    })
