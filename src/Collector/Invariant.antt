-- ===== src/Collector/Invariant.antt =====
-- agent.rs: the bounds of `StreamCollector` that every event keeps, and a delta of the text.
use mathlib.Core.Path.{subst}
use h_agent_core.Base.{
  ℕ, ◌+◌, ◌*◌, ◌≤◌, ◌<◌, String, Bool, true, false, ◌&&◌, ◌||◌, List, [], ◌∷◌, ◌++◌, Option, none,
  some, ltb, leb, length, byte_len, ◌≡◌, refl, arith, kib, Bool-cases, inl, inr, u64_max,
  saturating_add, All,
}
use h_agent_core.Protocol.{Json, ToolCall}
use h_agent_core.Collector.{
  StreamCollector, PartialToolCall, call_bytes, find_slot, put_slot, is_none, on_text,
  append_text_bounded, set_text, on_text_limited,
}
use h_agent_core.Collector.Texts.{append_text_bounded-le}
use h_agent_core.Collector.Limits.{partial_bytes, Fits, put_slot-length}

-- The limits are below the largest word, as every configured one is.
abbrev pub HasLimits : {V : Type 0} → StreamCollector V → Type 0
HasLimits c =
    (c.max_tool_call_bytes < u64_max)
    × (c.max_tool_call_total_bytes < u64_max)
    × (c.max_tool_calls < u64_max)

abbrev pub TextFits : Option ℕ → String → Type 0
TextFits none text = Unit
TextFits (some m) text = byte_len text ≤ m

pub or-false : (a b : Bool) → (a || b) ≡ false → (a ≡ false) × (b ≡ false)
or-false false b h = (refl, h)
or-false true b h = ground arith

-- A sum within a limit that is below the largest word does not saturate.
pub saturating_fits :
    (a b m : ℕ)
    → m < u64_max
    → ltb m (saturating_add a b) ≡ false
    → (a + b ≤ m) × (saturating_add a b ≡ a + b)
saturating_fits a b m lim h = ground arith

pub bounded_text :
    (buffer delta : String) (m : ℕ)
    → TextFits (some m) buffer
    → TextFits (some m) (append_text_bounded buffer delta m)
bounded_text buffer delta m h = let k = append_text_bounded-le buffer delta m in ground arith

pub room_left : (n k m : ℕ) → m < u64_max → leb m (saturating_add n k) ≡ false → k + (n + 1) ≤ m
room_left n k m lim h = ground arith

pub ltb-false : (a b : ℕ) → ltb a b ≡ false → b ≤ a
ltb-false a b h = ground arith

pub empty_fits : (limit : Option ℕ) → TextFits limit ""
empty_fits none = tt
empty_fits (some m) = omega arith

module _ {V : Type 0} ⦃j : Json V⦄ where
  abbrev pub completed_bytes : List (ToolCall V) → ℕ
  completed_bytes [] = 0
  completed_bytes (call ∷ calls) = call_bytes call + completed_bytes calls

  abbrev pub CallFits : ℕ → ToolCall V → Type 0
  CallFits m call = call_bytes call ≤ m

  pub completed_bytes-append :
      (xs ys : List (ToolCall V))
      → completed_bytes (xs ++ ys) ≡ completed_bytes xs + completed_bytes ys
  completed_bytes-append [] ys = omega arith
  completed_bytes-append (x ∷ xs) ys = omega (arith, completed_bytes-append xs ys)

  pub record IsBounded (c : StreamCollector V) : Type 0 where
    pub counted : c.tool_call_bytes ≡ partial_bytes c.partials + completed_bytes c.completed_calls
    pub total : c.tool_call_bytes ≤ c.max_tool_call_total_bytes
    pub calls : length c.partials + length c.completed_calls ≤ c.max_tool_calls
    pub partials_fit : All (Fits c.max_tool_call_bytes) c.partials
    pub calls_fit : All (CallFits c.max_tool_call_bytes) c.completed_calls
    pub text_fits : TextFits c.max_text_bytes c.assistant_text
    pub reasoning_fits : byte_len c.reasoning_text ≤ 64 * kib

  pub set_text-IsBounded :
      (c : StreamCollector V) (text : String)
      → TextFits c.max_text_bytes text
      → IsBounded c
      → IsBounded (set_text c text)
  set_text-IsBounded c text h b = record {
    counted = b.counted;
    total = b.total;
    calls = b.calls;
    partials_fit = b.partials_fit;
    calls_fit = b.calls_fit;
    text_fits = h;
    reasoning_fits = b.reasoning_fits;
  }

  limited-IsBounded :
      (c : StreamCollector V) (delta : String) (limit : Option ℕ)
      → c.max_text_bytes ≡ limit
      → IsBounded c
      → IsBounded (on_text_limited c delta limit).0
  unfolding on_text_limited
  limited-IsBounded c delta none e b = set_text-IsBounded c _ (rw e tt) b
  limited-IsBounded c delta (some m) e b =
      let fits : TextFits (some m) c.assistant_text =
        subst (λ x. TextFits x c.assistant_text) e b.text_fits in
      let c-bounded =
        set_text-IsBounded c (append_text_bounded c.assistant_text delta m)
          (rw e (bounded_text c.assistant_text delta m fits)) b in
      elim (Bool-cases (ltb m (saturating_add (byte_len c.assistant_text) (byte_len delta)))) [
        | inl h ↦ rw h c-bounded
        | inr h ↦ rw h c-bounded
      ]

  pub has_room :
      (c : StreamCollector V) (fresh : Bool)
      → c.max_tool_calls < u64_max
      → fresh ≡ true
      → (fresh
          && leb c.max_tool_calls (saturating_add (length c.partials) (length c.completed_calls)))
        ≡ false
      → length c.partials + length c.completed_calls < c.max_tool_calls
  has_room c true lim e h = ground arith
  has_room c false lim e h = ground arith

  pub slot_room :
      (c : StreamCollector V) (slot : String) (q : PartialToolCall)
      → (is_none (find_slot slot c.partials) ≡ true
          → length c.partials + length c.completed_calls < c.max_tool_calls)
      → IsBounded c
      → length (put_slot slot q c.partials) + length c.completed_calls ≤ c.max_tool_calls
  slot_room c slot q room b =
      let e = put_slot-length slot q c.partials in
      let n = b.calls in
      elim (Bool-cases (is_none (find_slot slot c.partials))) [
        | inl h ↦ let r = room h in rw e (rw h (omega arith))
        | inr h ↦ rw e (rw h (omega arith))
      ]

  pub on_text-IsBounded :
      (c : StreamCollector V) (delta : String) → IsBounded c → IsBounded (on_text c delta).0
  unfolding on_text
  on_text-IsBounded c delta b = limited-IsBounded c delta c.max_text_bytes refl b
