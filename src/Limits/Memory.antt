-- ===== src/Limits/Memory.antt =====
-- `MemoryConfig::normalize` (config/limits.rs).
use h_agent_core.Base.{
  ◌>>=◌, ℕ, ◌*◌, ◌≤◌, ◌≡◌, refl, ap, ◌∙◌, min, Option, some, arith, clamp, clamp?, clamp?-clamp,
  clamp_bounds, clamp_fixed, kib, mib,
}
use mathlib.Core.Path.{subst}
use h_agent_core.Limits.{MemoryConfig, memory_normalize}

abbrev pub IsIn : ℕ → ℕ → ℕ → Type 0
IsIn x lo hi = (lo ≤ x) × (x ≤ hi)

-- The ranges that the limits are held to, in the order of the fields.
pub record IsNormal (n : MemoryConfig) : Type 0 where
  pub entries : IsIn n.max_entries 1 10000
  pub candidates : IsIn n.max_candidates 1 n.max_entries
  pub entry_bytes : IsIn n.max_entry_bytes 256 (256 * kib)
  pub total_bytes : IsIn n.max_total_bytes n.max_entry_bytes (256 * mib)
  pub recall_entries : IsIn n.max_recall_entries 1 32
  pub recall_bytes : IsIn n.max_recall_bytes 1024 (128 * kib)
  pub sse_frame : IsIn n.max_sse_frame_bytes (64 * kib) (8 * mib)
  pub sse_buffer : IsIn n.max_sse_buffer_bytes n.max_sse_frame_bytes (16 * mib)
  pub response : IsIn n.max_response_bytes (64 * kib) (16 * mib)
  pub call_bytes : IsIn n.max_tool_call_bytes (16 * kib) (4 * mib)
  pub call_total : IsIn n.max_tool_call_total_bytes n.max_tool_call_bytes (16 * mib)
  pub calls : IsIn n.max_tool_calls 1 256
  pub event_bytes : IsIn n.max_agent_event_bytes (4 * kib) (256 * kib)
  pub history_items : IsIn n.max_history_items 20 2000
  pub history_bytes : IsIn n.max_history_bytes (128 * kib) (16 * mib)
  pub item_bytes : IsIn n.max_history_item_bytes (4 * kib) (min n.max_history_bytes (2 * mib))

-- One step of `normalize`: whatever the value, the clamp succeeds and its result is in range.
pub step {ℓ κ} :
    {A : Type ℓ} (P : A → Type κ) (x lo hi : ℕ) (rest : ℕ → Option A)
    → lo ≤ hi
    → ((y : ℕ) → IsIn y lo hi → (a : A) × (rest y ≡ some a) × P a)
    → (a : A) × ((clamp? x lo hi >>= rest) ≡ some a) × P a
step P x lo hi rest h k = rw (clamp?-clamp x lo hi h) (k (clamp x lo hi) (clamp_bounds x lo hi h))

-- Normalising never panics, whatever the configuration file holds, and puts every limit in range.
pub memory_normalize_total :
    (m : MemoryConfig) → (n : MemoryConfig) × (memory_normalize m ≡ some n) × IsNormal n
unfolding memory_normalize
memory_normalize_total m = step IsNormal m.max_entries 1 10000 _ (omega arith) λ entries h1.
    step IsNormal m.max_candidates 1 entries _ (omega arith) λ candidates h2.
      step IsNormal m.max_entry_bytes 256 (256 * kib) _ (omega arith) λ entry_bytes h3.
        step IsNormal m.max_total_bytes entry_bytes (256 * mib) _ (omega arith) λ total_bytes h4.
          step IsNormal m.max_recall_entries 1 32 _ (omega arith) λ recall_entries h5.
            step IsNormal m.max_recall_bytes 1024 (128 * kib) _ (omega arith) λ recall_bytes h6.
              step IsNormal m.max_sse_frame_bytes (64 * kib) (8 * mib) _ (omega arith)
                λ sse_frame h7.
                  step IsNormal m.max_sse_buffer_bytes sse_frame (16 * mib) _ (omega arith)
                    λ sse_buffer h8.
                      step IsNormal m.max_response_bytes (64 * kib) (16 * mib) _ (omega arith)
                        λ response h9.
                          step IsNormal m.max_tool_call_bytes (16 * kib) (4 * mib) _ (omega arith)
                            λ call_bytes h10.
                              step IsNormal m.max_tool_call_total_bytes call_bytes (16 * mib) _
                                (omega arith)
                                λ call_total h11.
                                  step IsNormal m.max_tool_calls 1 256 _ (omega arith) λ calls h12.
                                    step IsNormal m.max_agent_event_bytes (4 * kib) (256 * kib) _
                                      (omega arith)
                                      λ event_bytes h13.
                                        step IsNormal m.max_history_items 20 2000 _ (omega arith)
                                          λ history_items h14.
                                            step IsNormal m.max_history_bytes (128 * kib) (16 * mib)
                                              _ (omega arith)
                                              λ history_bytes h15.
                                                step IsNormal m.max_history_item_bytes (4 * kib)
                                                  (min history_bytes (2 * mib)) _ (omega arith)
                                                  λ item_bytes h16. (
                                                    _,
                                                    refl,
                                                    record {
                                                      entries = h1;
                                                      candidates = h2;
                                                      entry_bytes = h3;
                                                      total_bytes = h4;
                                                      recall_entries = h5;
                                                      recall_bytes = h6;
                                                      sse_frame = h7;
                                                      sse_buffer = h8;
                                                      response = h9;
                                                      call_bytes = h10;
                                                      call_total = h11;
                                                      calls = h12;
                                                      event_bytes = h13;
                                                      history_items = h14;
                                                      history_bytes = h15;
                                                      item_bytes = h16;
                                                    },
                                                  )

fixed : (x lo hi : ℕ) → IsIn x lo hi → clamp? x lo hi ≡ some x
fixed x lo hi (h, k) = clamp?-clamp x lo hi (omega arith) ∙ ap some (clamp_fixed x lo hi h k)

-- A configuration in range is left as it is, so normalising twice is normalising once.
pub memory_normalize_fixed : (n : MemoryConfig) → IsNormal n → memory_normalize n ≡ some n
unfolding memory_normalize
memory_normalize_fixed n h = rw (
  fixed n.max_entries 1 10000 h.entries,
  fixed n.max_candidates 1 n.max_entries h.candidates,
  fixed n.max_entry_bytes 256 (256 * kib) h.entry_bytes,
  fixed n.max_total_bytes n.max_entry_bytes (256 * mib) h.total_bytes,
  fixed n.max_recall_entries 1 32 h.recall_entries,
  fixed n.max_recall_bytes 1024 (128 * kib) h.recall_bytes,
  fixed n.max_sse_frame_bytes (64 * kib) (8 * mib) h.sse_frame,
  fixed n.max_sse_buffer_bytes n.max_sse_frame_bytes (16 * mib) h.sse_buffer,
  fixed n.max_response_bytes (64 * kib) (16 * mib) h.response,
  fixed n.max_tool_call_bytes (16 * kib) (4 * mib) h.call_bytes,
  fixed n.max_tool_call_total_bytes n.max_tool_call_bytes (16 * mib) h.call_total,
  fixed n.max_tool_calls 1 256 h.calls,
  fixed n.max_agent_event_bytes (4 * kib) (256 * kib) h.event_bytes,
  fixed n.max_history_items 20 2000 h.history_items,
  fixed n.max_history_bytes (128 * kib) (16 * mib) h.history_bytes,
  fixed n.max_history_item_bytes (4 * kib) (min n.max_history_bytes (2 * mib)) h.item_bytes,
)

-- What `normalize` has made of a configuration, a second `normalize` leaves as it is.
pub memory_normalize_idem :
    (m n : MemoryConfig) → memory_normalize m ≡ some n → memory_normalize n ≡ some n
memory_normalize_idem m n h =
    let (k, made, normal) = memory_normalize_total m in
    let same : k ≡ n = cc in
    subst (λ c. memory_normalize c ≡ some c) same (memory_normalize_fixed k normal)
