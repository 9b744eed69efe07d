-- ===== src/Limits/Tests.antt =====
-- Tests and examples for the limits of config/limits.rs.
use h_agent_core.Base.{ℕ, some, ◌≡◌, refl, true, clamp, clamp?}
use h_agent_core.Samples.{sample_f32}
use h_agent_core.Limits.{
  MemoryConfig, memory_default, memory_normalize, compaction_default, compaction_normalize,
}

-- A configuration in which every count is out of range.
abbrev all_zero : MemoryConfig
all_zero = record {
  enabled = true;
  auto_recall = true;
  max_entries = 0;
  max_candidates = 0;
  max_entry_bytes = 0;
  max_total_bytes = 0;
  max_recall_entries = 0;
  max_recall_bytes = 0;
  max_sse_frame_bytes = 0;
  max_sse_buffer_bytes = 0;
  max_response_bytes = 0;
  max_tool_call_bytes = 0;
  max_tool_call_total_bytes = 0;
  max_tool_calls = 0;
  max_agent_event_bytes = 0;
  max_history_items = 0;
  max_history_bytes = 0;
  max_history_item_bytes = 0;
}

default_is_normal : memory_normalize memory_default ≡ some memory_default
unfolding memory_normalize clamp? clamp
default_is_normal = refl

default_compaction : compaction_normalize {F = ℕ} compaction_default ≡ some compaction_default
unfolding compaction_normalize clamp? clamp
default_compaction = refl
