-- ===== src/Session/Bounds.antt =====
-- session.rs: the bounds on what a session keeps for display, the trim of its entries and the
-- buffer of its live reasoning.
use h_agent_core.Base.{
  trim, ℕ, suc, ◌+◌, ◌-◌, ◌*◌, ◌≤◌, String, ◌≡◌, refl, sym, ap, ◌∙◌, inl, inr, false, List, [], ◌∷◌,
  ◌++◌, arith, ltb, length, length-append, length-drop, drop, take, take-append-drop, length-take,
  Bool-cases, byte_len, str_eq, ◌+s◌, kib, mib, append_assoc,
}
use h_agent_core.Protocol.{Json}
use h_agent_core.Collector.Texts.{drop_to-le}
use h_agent_core.Conversation.{F64}
use h_agent_core.Conversation.Suffix.{suffix_of_suffix}
use h_agent_core.Session.Model.{DisplayEntry, SessionRuntime, Services, AgentEvent}
use h_agent_core.Session.Entries.{
  display_entry_bytes, content_bytes, remove_over, trim_entries, max_entries, max_bytes,
}
use h_agent_core.Session.Thinking.{
  find_start, grapheme_tail, update_thinking_line, finish_thinking, persist_thinking_summary,
  begin_thinking, push_entry, trim_session, mark_partial_if_streaming,
}
use h_agent_core.Session.Events.{handle_event, handle_branch, set_todos}
use h_agent_core.Session.Updates.{last_is_open_search}

module _ {V : Type 0} ⦃j : Json V⦄ where
  remove_over_split :
      (es : List (DisplayEntry V)) (removed : ℕ)
      → (gone : List (DisplayEntry V)) × (es ≡ gone ++ (remove_over es removed).0)
        × ((remove_over es removed).1 ≡ removed + length gone)
  unfolding remove_over
  remove_over_split [] removed = ([], refl, omega arith)
  remove_over_split (e ∷ es) removed =
      elim (Bool-cases (ltb max_bytes (display_entry_bytes (e ∷ es)))) [
        | inl over ↦
            let (gone, split, count) = remove_over_split es (suc removed) in
            rw over (e ∷ gone, ap (λ t. e ∷ t) split, omega (arith, count))
        | inr fits ↦ rw fits ([], refl, omega arith)
      ]

  remove_over_bounds :
      (es : List (DisplayEntry V)) (removed : ℕ)
      → display_entry_bytes (remove_over es removed).0 ≤ max_bytes
  unfolding remove_over display_entry_bytes
  remove_over_bounds [] removed = omega arith
  remove_over_bounds (e ∷ es) removed =
      let ih = remove_over_bounds es (suc removed) in
      elim (Bool-cases (ltb max_bytes (content_bytes e.content + display_entry_bytes es))) [
        | inl over ↦ rw over ih
        | inr fits ↦ rw fits (ground arith)
      ]

  remove_over_longest :
      (pre suf : List (DisplayEntry V)) (removed : ℕ)
      → display_entry_bytes suf ≤ max_bytes
      → length suf ≤ length (remove_over (pre ++ suf) removed).0
  unfolding remove_over
  remove_over_longest [] [] removed h = omega arith
  remove_over_longest [] (s ∷ suf) removed h =
      let fits : ltb max_bytes (display_entry_bytes (s ∷ suf)) ≡ false = ground arith in
      rw fits (omega arith)
  remove_over_longest (p ∷ pre) suf removed h =
      elim (Bool-cases (ltb max_bytes (display_entry_bytes (p ∷ pre ++ suf)))) [
        | inl over ↦ rw over (remove_over_longest pre suf (suc removed) h)
        | inr fits ↦ rw fits (omega (arith, length-append pre suf))
      ]

  -- What a trim keeps: the longest end of the entries within both limits, and the count of the rest.
  pub record IsTrimmed (entries : List (DisplayEntry V)) (result : List (DisplayEntry V) × ℕ)
      : Type 0 where
    pub gone : List (DisplayEntry V)
    pub split : entries ≡ gone ++ result.0
    pub counted : result.1 ≡ length gone
    pub few : length result.0 ≤ 1000
    pub small : display_entry_bytes result.0 ≤ 2 * mib
    pub longest :
        (pre suf : List (DisplayEntry V))
        → entries ≡ pre ++ suf
        → length suf ≤ 1000
        → display_entry_bytes suf ≤ 2 * mib
        → length suf ≤ length result.0

  -- `trim_entries` keeps the longest end of the entries that has at most 1000 of them and 2 MiB,
  -- and returns how many it removed.
  pub trim_entries-IsTrimmed :
      (entries : List (DisplayEntry V)) → IsTrimmed entries (trim_entries entries)
  unfolding trim_entries
  trim_entries-IsTrimmed entries =
      let count = length entries - max_entries in
      let (gone, split, counted) = remove_over_split (drop count entries) count in
      let l = length-take count entries in
      let d = length-drop count entries in
      record {
        gone = take count entries ++ gone;
        split =
            sym (take-append-drop count entries)
            ∙ ap (λ t. take count entries ++ t) split
            ∙ sym (append_assoc (take count entries) gone _);
        counted = omega (arith, counted, length-append (take count entries) gone);
        few =
            omega (
              arith,
              ap length split,
              length-append gone (remove_over (drop count entries) count).0,
            );
        small = remove_over_bounds (drop count entries) count;
        longest = λ pre suf e n b.
            let (r, inside) =
              suffix_of_suffix pre (take count entries) suf (drop count entries)
                (sym e ∙ sym (take-append-drop count entries))
                (omega (arith, ap length e, length-append pre suf)) in
            rw inside (remove_over_longest r suf count b);
      }

find_start-ge :
    (offsets : List ℕ) (minimum end : ℕ) → minimum ≤ end → minimum ≤ find_start offsets minimum end
unfolding find_start
find_start-ge [] minimum end h = h
find_start-ge (o ∷ os) minimum end h = let ih = find_start-ge os minimum end h in ground arith

grapheme_tail-le :
    (offsets : String → List ℕ) (value : String) (most : ℕ)
    → byte_len (grapheme_tail offsets value most) ≤ most
unfolding grapheme_tail
grapheme_tail-le offsets value most =
    let start = find_start (offsets value) (byte_len value - most) (byte_len value) in
    let h = find_start-ge (offsets value) (byte_len value - most) (byte_len value) (omega arith) in
    let d = drop_to-le value start in omega arith

-- The live reasoning that a session holds is within the limit of its buffer.
abbrev pub IsBuffered : {V F : Type 0} → SessionRuntime V F → Type 0
IsBuffered s = byte_len s.thinking_buffer ≤ 64 * kib

module _ {V F : Type 0} where
  update_thinking_line-IsBuffered :
      (offsets : String → List ℕ) (s : SessionRuntime V F) (delta : String)
      → IsBuffered (update_thinking_line offsets s delta)
  unfolding update_thinking_line
  update_thinking_line-IsBuffered offsets s delta =
      let joined = s.thinking_buffer +s delta in
      elim (Bool-cases (ltb (64 * kib) (byte_len joined))) [
        | inl over ↦ rw over (grapheme_tail-le offsets joined (64 * kib))
        | inr fits ↦ rw fits (ground arith)
      ]

  finish_thinking-buffer :
      (id : String) (s : SessionRuntime V F) (line : String)
      → (finish_thinking id s line).thinking_buffer ≡ ""
  unfolding finish_thinking persist_thinking_summary push_entry
  finish_thinking-buffer id s line = elim (Bool-cases (str_eq (trim s.thinking_buffer) "")) [
    | inl e ↦ rw e refl
    | inr e ↦ rw e refl
  ]

module _ {V F : Type 0} ⦃j : Json V⦄ ⦃f : F64 F⦄ (services : Services V F) where
  handle_branch-IsBuffered :
      (s : SessionRuntime V F) (event : AgentEvent V)
      → IsBuffered s
      → IsBuffered (handle_branch services s event).0
  unfolding handle_branch begin_thinking set_todos push_entry mark_partial_if_streaming
  handle_branch-IsBuffered s (AgentEvent.reasoning_delta delta) h =
      update_thinking_line-IsBuffered services.grapheme_offsets _ delta
  handle_branch-IsBuffered s AgentEvent.model_streaming h = omega arith
  handle_branch-IsBuffered s AgentEvent.reasoning_completed h =
      rw (finish_thinking-buffer (services.uuid 0) s "思考完成") (omega arith)
  handle_branch-IsBuffered s (AgentEvent.web_search_started query) h =
      elim (Bool-cases (last_is_open_search (finish_thinking (services.uuid 0) s "思考完成").entries)) [
        | inl e ↦ rw e (rw (finish_thinking-buffer (services.uuid 0) s "思考完成") (omega arith))
        | inr e ↦ rw e (rw (finish_thinking-buffer (services.uuid 0) s "思考完成") (omega arith))
      ]
  handle_branch-IsBuffered s (AgentEvent.cancelled reason) h =
      rw (finish_thinking-buffer (services.uuid 0) s "思考已取消") (omega arith)
  handle_branch-IsBuffered s (AgentEvent.text_delta delta) h =
      rw (finish_thinking-buffer (services.uuid 0) s "思考完成") (omega arith)
  handle_branch-IsBuffered s (AgentEvent.approval c r i t k) h =
      rw (finish_thinking-buffer (services.uuid 0) s "思考完成") (omega arith)
  handle_branch-IsBuffered s (AgentEvent.tool_started call) h =
      rw (finish_thinking-buffer (services.uuid 0) s "思考完成") (omega arith)
  handle_branch-IsBuffered s (AgentEvent.completed items) h =
      rw (finish_thinking-buffer (services.uuid 0) s "思考完成") (omega arith)
  handle_branch-IsBuffered s (AgentEvent.failed error) h =
      rw (finish_thinking-buffer (services.uuid 0) s "思考失败") (omega arith)
  handle_branch-IsBuffered s (AgentEvent.local_command_finished command result) h =
      elim (Bool-cases (str_eq command "/diff")) [ inl e ↦ rw e h | inr e ↦ rw e h ]
  handle_branch-IsBuffered s other h = h

  -- An event keeps the reasoning that a session holds within 64 KiB, wherever the grapheme
  -- clusters of a text are said to begin, and after it the session shows at most 1000 entries of
  -- at most 2 MiB, whatever it showed before.
  pub handle_event-IsBuffered :
      (s : SessionRuntime V F) (event : AgentEvent V)
      → IsBuffered s
      → IsBuffered (handle_event services s event).0
        × (length (handle_event services s event).0.entries ≤ 1000)
        × (display_entry_bytes (handle_event services s event).0.entries ≤ 2 * mib)
  unfolding handle_event trim_session
  handle_event-IsBuffered s event h =
      let t = (handle_branch services s event).0 in
      let trimmed = trim_entries-IsTrimmed t.entries in
      (handle_branch-IsBuffered s event h, trimmed.few, trimmed.small)
