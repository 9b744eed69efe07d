-- ===== src/Limits.antt =====
-- config/limits.rs: the byte and count limits of the configuration. `f32` is a parameter `F`, with
-- the operations of `F32`. A call of `clamp` panics if its bounds are out of order, so `normalize`
-- is an `Option`, and `none` is a panic.
pub mod Memory
pub mod Compaction
mod Tests
use h_agent_core.Base.{
  ◌>>=◌, ℕ, ◌*◌, min, String, Bool, true, false, Option, none, some, clamp?, kib, mib,
}

-- What the program uses of `f32`: its literals, here in hundredths, and `f32::clamp`.
pub record F32 (F : Type 0) : Type 0 where
  pub hundredths : ℕ → F
  pub clamp : F → F → F → F

pub record MemoryConfig : Type 0 where
  pub enabled : Bool
  pub auto_recall : Bool
  pub max_entries : ℕ
  pub max_candidates : ℕ
  pub max_entry_bytes : ℕ
  pub max_total_bytes : ℕ
  pub max_recall_entries : ℕ
  pub max_recall_bytes : ℕ
  pub max_sse_frame_bytes : ℕ
  pub max_sse_buffer_bytes : ℕ
  pub max_response_bytes : ℕ
  pub max_tool_call_bytes : ℕ
  pub max_tool_call_total_bytes : ℕ
  pub max_tool_calls : ℕ
  pub max_agent_event_bytes : ℕ
  pub max_history_items : ℕ
  pub max_history_bytes : ℕ
  pub max_history_item_bytes : ℕ

abbrev pub memory_default : MemoryConfig
memory_default = record {
  enabled = true;
  auto_recall = false;
  max_entries = 512;
  max_candidates = 128;
  max_entry_bytes = 16 * kib;
  max_total_bytes = 8 * mib;
  max_recall_entries = 8;
  max_recall_bytes = 16 * kib;
  max_sse_frame_bytes = 2 * mib;
  max_sse_buffer_bytes = 4 * mib;
  max_response_bytes = 2 * mib;
  max_tool_call_bytes = mib;
  max_tool_call_total_bytes = 4 * mib;
  max_tool_calls = 32;
  max_agent_event_bytes = 64 * kib;
  max_history_items = 200;
  max_history_bytes = mib;
  max_history_item_bytes = 256 * kib;
}

unfoldable pub memory_normalize : MemoryConfig → Option MemoryConfig
memory_normalize m = do
  entries ← clamp? m.max_entries 1 10000
  candidates ← clamp? m.max_candidates 1 entries
  entry_bytes ← clamp? m.max_entry_bytes 256 (256 * kib)
  total_bytes ← clamp? m.max_total_bytes entry_bytes (256 * mib)
  recall_entries ← clamp? m.max_recall_entries 1 32
  recall_bytes ← clamp? m.max_recall_bytes 1024 (128 * kib)
  sse_frame ← clamp? m.max_sse_frame_bytes (64 * kib) (8 * mib)
  sse_buffer ← clamp? m.max_sse_buffer_bytes sse_frame (16 * mib)
  response ← clamp? m.max_response_bytes (64 * kib) (16 * mib)
  call_bytes ← clamp? m.max_tool_call_bytes (16 * kib) (4 * mib)
  call_total ← clamp? m.max_tool_call_total_bytes call_bytes (16 * mib)
  calls ← clamp? m.max_tool_calls 1 256
  event_bytes ← clamp? m.max_agent_event_bytes (4 * kib) (256 * kib)
  history_items ← clamp? m.max_history_items 20 2000
  history_bytes ← clamp? m.max_history_bytes (128 * kib) (16 * mib)
  item_bytes ← clamp? m.max_history_item_bytes (4 * kib) (min history_bytes (2 * mib))
  some (record {
    enabled = m.enabled;
    auto_recall = m.auto_recall;
    max_entries = entries;
    max_candidates = candidates;
    max_entry_bytes = entry_bytes;
    max_total_bytes = total_bytes;
    max_recall_entries = recall_entries;
    max_recall_bytes = recall_bytes;
    max_sse_frame_bytes = sse_frame;
    max_sse_buffer_bytes = sse_buffer;
    max_response_bytes = response;
    max_tool_call_bytes = call_bytes;
    max_tool_call_total_bytes = call_total;
    max_tool_calls = calls;
    max_agent_event_bytes = event_bytes;
    max_history_items = history_items;
    max_history_bytes = history_bytes;
    max_history_item_bytes = item_bytes;
  })

pub record CompactionConfig (F : Type 0) : Type 0 where
  pub enabled : Bool
  pub auto_threshold : F
  pub target_ratio : F
  pub preserve_recent_tokens : Option ℕ
  pub max_summary_bytes : ℕ
  pub max_overflow_retries : ℕ

abbrev clamp_tokens : Option ℕ → Option (Option ℕ)
clamp_tokens none = some none
clamp_tokens (some value) = clamp? value 4000 16000 >>= λ v. some (some v)

module _ {F : Type 0} ⦃f : F32 F⦄ where
  abbrev pub compaction_default : CompactionConfig F
  compaction_default = record {
    enabled = true;
    auto_threshold = f.hundredths 80;
    target_ratio = f.hundredths 55;
    preserve_recent_tokens = none;
    max_summary_bytes = 65536;
    max_overflow_retries = 1;
  }

  unfoldable pub compaction_normalize : CompactionConfig F → Option (CompactionConfig F)
  compaction_normalize c = do
    summary ← clamp? c.max_summary_bytes (4 * kib) (256 * kib)
    retries ← clamp? c.max_overflow_retries 0 3
    recent ← clamp_tokens c.preserve_recent_tokens
    some (record {
      enabled = c.enabled;
      auto_threshold = f.clamp c.auto_threshold (f.hundredths 60) (f.hundredths 90);
      target_ratio = f.clamp c.target_ratio (f.hundredths 30) (f.hundredths 70);
      preserve_recent_tokens = recent;
      max_summary_bytes = summary;
      max_overflow_retries = retries;
    })

pub record ServerConfig : Type 0 where
  pub bind : String
  pub port : ℕ
  pub event_buffer : ℕ
  pub event_max_bytes : ℕ
  pub approval_timeout_seconds : ℕ

abbrev pub server_default : ServerConfig
server_default = record {
  bind = "127.0.0.1";
  port = 7788;
  event_buffer = 512;
  event_max_bytes = 4 * mib;
  approval_timeout_seconds = 300;
}

pub data SearchBackend : Type 0 where
  duck_duck_go bing : SearchBackend

pub record RuntimeConfig : Type 0 where
  pub command_timeout_seconds : ℕ
  pub max_tool_output_bytes : ℕ
  pub max_fetch_bytes : ℕ
  pub search_backend : SearchBackend
  pub max_background_sessions : ℕ
  pub checkpoint_max_file_bytes : ℕ
  pub checkpoint_max_session_bytes : ℕ

pub record ClusterConfig : Type 0 where
  pub max_parallel_children : Option ℕ
  pub child_active_timeout_seconds : ℕ
  pub child_max_output_bytes : ℕ
  pub child_max_tool_output_bytes : ℕ
  pub child_max_context_items : ℕ
  pub child_max_context_bytes : ℕ

abbrev pub runtime_default : RuntimeConfig
runtime_default = record {
  command_timeout_seconds = 60;
  max_tool_output_bytes = mib;
  max_fetch_bytes = 10 * mib;
  search_backend = duck_duck_go;
  max_background_sessions = 8;
  checkpoint_max_file_bytes = mib;
  checkpoint_max_session_bytes = 16 * mib;
}

abbrev pub cluster_default : ClusterConfig
cluster_default = record {
  max_parallel_children = some 4;
  child_active_timeout_seconds = 300;
  child_max_output_bytes = 256 * kib;
  child_max_tool_output_bytes = 128 * kib;
  child_max_context_items = 48;
  child_max_context_bytes = 512 * kib;
}
