-- ===== src/OpenAi/Events.antt =====
-- provider/openai.rs: how a JSON event of a chat stream is read, and what both kinds of stream
-- say of searches.
use Prim.Native.String.{slice}
use h_agent_core.Base.{
  ℕ, ◌+◌, ◌-◌, ◌%◌, String, Bool, false, not, ◌&&◌, ◌||◌, List, [], ◌∷◌, ◌++◌, Option, none, some,
  ltb, leb, ◌==◌, if◌then◌else◌, ◌>>=◌, take, any, all, byte_len, codes, lower_codes, codes_contain,
  str_eq, trim, is_empty, print_ℕ, ◌+s◌,
}
use h_agent_core.Collector.{
  Usage, ModelEvent, reasoning_delta, text_delta, web_search_started, web_search_result,
  web_search_completed, tool_call_delta, usage, floor_boundary,
}
use h_agent_core.Config.Registry.{codes_eq}
use h_agent_core.Value.{Value, null, Numbers, get, as_str, as_u64, is_null, get_str, get_list}

abbrev pub text_or : String → Option String → String
text_or default none = default
text_or default (some s) = s

abbrev pub or_else {ℓ} : {A : Type ℓ} → Option A → Option A → Option A
or_else none o = o
or_else (some a) o = some a

abbrev pub zero_or : Option ℕ → ℕ → ℕ
zero_or none d = d
zero_or (some n) d = n

abbrev pub when_some {ℓ κ} : {A : Type ℓ} {B : Type κ} → Option A → (A → List B) → List B
when_some none f = []
when_some (some a) f = f a

abbrev pub concat_map {ℓ κ} : {A : Type ℓ} {B : Type κ} → (A → List B) → List A → List B
concat_map f [] = []
concat_map f (x ∷ xs) = f x ++ concat_map f xs

unfoldable pub bounded_text : String → ℕ → String
bounded_text value max_bytes =
    if leb (byte_len value) max_bytes
    then value
    else slice value 0 (floor_boundary value (max_bytes - 3)) +s "..."

-- A control character other than a line feed, a return or a tab.
abbrev is_odd : ℕ → Bool
is_odd c = (ltb c 32 || (leb 127 c && leb c 159)) && not ((c == 10) || (c == 13) || (c == 9))

abbrev is_base64 : ℕ → Bool
is_base64 c =
    (leb b'0' c && leb c b'9')
    || (leb b'A' c && leb c b'Z')
    || (leb b'a' c && leb c b'z')
    || (c == b'+')
    || (c == b'/')
    || (c == b'=')

unfoldable pub safe_reasoning_text : String → Bool
safe_reasoning_text value =
    let trimmed = trim value in
    not (is_empty trimmed)
    && not (any is_odd (codes trimmed))
    && not
        (leb 32 (byte_len trimmed) && (byte_len trimmed % 4 == 0) && all is_base64 (codes trimmed))

abbrev pub filtered : (String → Bool) → Option String → Option String
filtered p none = none
filtered p (some s) = if p s then some s else none

abbrev pub not_empty : String → Bool
not_empty s = not (is_empty s)

-- `.done` at the end of the type.
abbrev pub ends_with_done : List ℕ → Bool
ends_with_done [] = false
ends_with_done (c ∷ cs) = codes_eq (c ∷ cs) (codes ".done") || ends_with_done cs

module _ {N : Type 0} ⦃n : Numbers N⦄ where
  abbrev pub or_null : Option (Value N) → Value N
  or_null none = null
  or_null (some v) = v

  -- `pointer("/first/second")`.
  abbrev pub pointer : Value N → String → String → Option (Value N)
  pointer v first second = get v first >>= λ x. get x second

  unfoldable pub parse_usage : Value N → Usage
  parse_usage value =
      let input =
        zero_or (or_else (get value "input_tokens") (get value "prompt_tokens") >>= as_u64) 0 in
      let output =
        zero_or (or_else (get value "output_tokens") (get value "completion_tokens") >>= as_u64)
          0 in
      record {
        input_tokens = input;
        output_tokens = output;
        total_tokens =
            zero_or (get value "total_tokens" >>= as_u64) ((input + output) % 18446744073709551616);
      }

  unfoldable pub recognized_reasoning_delta : Value N → Option String
  recognized_reasoning_delta delta = filtered safe_reasoning_text (
      or_else (get_str delta "reasoning_content")
        (or_else (get_str delta "thinking") (get_str delta "reasoning")))

  -- One annotation of a text.
  abbrev pub url_citation : Value N → List (ModelEvent (Value N))
  url_citation annotation =
      let url = text_or "" (get_str annotation "url") in
      if str_eq (text_or "" (get_str annotation "type")) "url_citation" && not_empty url
      then web_search_result (bounded_text (text_or "搜索来源" (get_str annotation "title")) 256)
          (bounded_text url 2048) ""
        ∷ []
      else []

  unfoldable pub append_url_citations : Value N → List (ModelEvent (Value N))
  append_url_citations item =
      concat_map (λ content. concat_map url_citation (take 10 (get_list content "annotations")))
        (get_list item "content")

  -- The text `search` is in every `web_search`.
  unfoldable pub search_started : List ℕ → Value N → Value N → List (ModelEvent (Value N))
  search_started event_type value item =
      elim (or_else (get value "query")
          (or_else (pointer value "search" "query") (pointer item "action" "query"))
        >>= as_str) [
          | some query ↦ web_search_started (bounded_text query 512) ∷ []
          | none ↦
              if (codes_contain event_type (codes "web_search")
                  || codes_contain event_type (codes "search"))
                && not (codes_contain event_type (codes "completed"))
              then web_search_started "DeepSeek 服务端网络搜索" ∷ []
              else []
        ]

  unfoldable pub search_result : Value N → List (ModelEvent (Value N))
  search_result value = when_some (or_else (get value "result") (get value "source")) λ result.
      let url = text_or "" (get_str result "url") in
      if is_empty url
      then []
      else web_search_result (bounded_text (text_or "Search result" (get_str result "title")) 256)
          (bounded_text url 2048)
          (bounded_text
            (text_or "" (or_else (get result "snippet") (get result "content") >>= as_str)) 4096)
        ∷ []

  unfoldable pub search_ended : List ℕ → Value N → Value N → List (ModelEvent (Value N))
  search_ended event_type value item =
      if codes_contain event_type (codes "completed")
        || (str_eq (text_or "" (get_str item "type")) "web_search_call"
            && ends_with_done event_type)
      then web_search_completed (zero_or (get value "count" >>= as_u64) 0) ∷ []
      else []

  unfoldable pub append_native_search_events : Value N → List (ModelEvent (Value N))
  append_native_search_events value =
      let event_type = lower_codes (text_or "" (get_str value "type")) in
      let item = or_null (get value "item") in
      search_started event_type value item
      ++ (search_result value ++ (append_url_citations item ++ search_ended event_type value item))

  unfoldable pub chat_call : Value N → ModelEvent (Value N)
  chat_call call =
      let function = or_null (get call "function") in
      tool_call_delta (print_ℕ (zero_or (get call "index" >>= as_u64) 0)) (get_str call "id")
        (get_str function "name") (text_or "" (get_str function "arguments"))

  unfoldable pub chat_choice : Value N → List (ModelEvent (Value N))
  chat_choice choice =
      let delta = or_null (get choice "delta") in
      when_some (recognized_reasoning_delta delta) (λ text. reasoning_delta text ∷ [])
      ++ (when_some (filtered not_empty (get_str delta "content")) (λ text. text_delta text ∷ [])
          ++ concat_map (λ call. chat_call call ∷ []) (get_list delta "tool_calls"))

  -- It never fails.
  unfoldable pub parse_chat_event : Value N → List (ModelEvent (Value N))
  parse_chat_event value =
      when_some (get value "usage") (λ u. if is_null u then [] else usage (parse_usage u) ∷ [])
      ++ (concat_map chat_choice (get_list value "choices")
          ++ (when_some (get value "delta" >>= recognized_reasoning_delta)
                (λ text. reasoning_delta text ∷ [])
              ++ append_native_search_events value))
