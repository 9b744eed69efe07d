-- ===== src/OpenAi/SearchLimits.antt =====
-- provider/openai.rs: how long the texts are that a search event tells.
use h_agent_core.Base.{
  ℕ, ◌≤◌, List, [], ◌∷◌, All, All-append, if◌then◌else◌, Bool-cases, inl, inr, take, byte_len, not,
  is_empty, ◌>>=◌, str_eq, ◌&&◌, ◌||◌, codes, codes_contain, Option, none, some, arith, lower_codes,
  Bool, true, false,
}
use h_agent_core.Collector.{ModelEvent, web_search_started, web_search_result, web_search_completed}
use h_agent_core.Value.{Value, Numbers, as_str, as_u64, get, get_str, get_list}
use h_agent_core.OpenAi.Events.{
  concat_map, url_citation, bounded_text, text_or, or_null, search_started, search_result,
  append_url_citations, search_ended, append_native_search_events, when_some, or_else, pointer,
  not_empty, zero_or, ends_with_done,
}
use h_agent_core.OpenAi.Reasoning.{bounded_text-le}

-- The texts of a search: 512 bytes of a query, 256 of a title, 2048 of a URL and 4096 of a snippet.
abbrev pub IsShort : {V : Type 0} → ModelEvent V → Type 0
IsShort e = elim e [
  | web_search_started query ↦ byte_len query ≤ 512
  | web_search_result title url snippet ↦
      (byte_len title ≤ 256) × (byte_len url ≤ 2048) × (byte_len snippet ≤ 4096)
  | _ ↦ Unit
]

All-concat_map :
    {A B : Type 0} (P : B → Type 0) (f : A → List B) (xs : List A)
    → ((x : A) → All P (f x))
    → All P (concat_map f xs)
All-concat_map P f [] h = tt
All-concat_map P f (x ∷ xs) h = All-append P (f x) (concat_map f xs) (h x) (All-concat_map P f xs h)

All-when_some :
    {A B : Type 0} (P : B → Type 0) (o : Option A) (f : A → List B)
    → ((x : A) → All P (f x))
    → All P (when_some o f)
All-when_some P none f h = tt
All-when_some P (some a) f h = h a

only_if-IsShort :
    {V : Type 0} (c : Bool) (e : ModelEvent V) → IsShort e → All IsShort (if c then e ∷ [] else [])
only_if-IsShort true e h = (h, tt)
only_if-IsShort false e h = tt

module _ {N : Type 0} ⦃n : Numbers N⦄ where
  url_citation-IsShort : (annotation : Value N) → All IsShort (url_citation annotation)
  url_citation-IsShort annotation =
      let title = text_or "搜索来源" (get_str annotation "title") in
      let url = text_or "" (get_str annotation "url") in
      only_if-IsShort
        (str_eq (text_or "" (get_str annotation "type")) "url_citation" && not_empty url)
        (web_search_result (bounded_text title 256) (bounded_text url 2048) "")
        (
          bounded_text-le title 256 (omega arith),
          bounded_text-le url 2048 (omega arith),
          omega arith,
        )

  append_url_citations-IsShort : (item : Value N) → All IsShort (append_url_citations item)
  unfolding append_url_citations
  append_url_citations-IsShort item = All-concat_map IsShort _ (get_list item "content") λ content.
      All-concat_map IsShort url_citation (take 10 (get_list content "annotations"))
        url_citation-IsShort

  search_result-IsShort : (value : Value N) → All IsShort (search_result value)
  unfolding search_result
  search_result-IsShort value =
      All-when_some IsShort (or_else (get value "result") (get value "source")) _ λ result.
        let url = text_or "" (get_str result "url") in
        elim (Bool-cases (is_empty url)) [
          | inl e ↦ rw e tt
          | inr e ↦ rw e (
            (
              bounded_text-le (text_or "Search result" (get_str result "title")) 256 (omega arith),
              bounded_text-le url 2048 (omega arith),
              bounded_text-le
                  (text_or "" (or_else (get result "snippet") (get result "content") >>= as_str))
                  4096 (omega arith),
            ),
            tt,
          )
        ]

  search_started-IsShort :
      (kind : List ℕ) (value item : Value N) → All IsShort (search_started kind value item)
  unfolding search_started
  search_started-IsShort kind value item =
      let unnamed =
        (codes_contain kind (codes "web_search") || codes_contain kind (codes "search"))
        && not (codes_contain kind (codes "completed")) in
      elim (or_else (get value "query")
            (or_else (pointer value "search" "query") (pointer item "action" "query"))
          >>= as_str)
        as (λ q. All (IsShort {V = Value N}) (elim q [
          | some query ↦ web_search_started (bounded_text query 512) ∷ []
          | none ↦ if unnamed then web_search_started "DeepSeek 服务端网络搜索" ∷ [] else []
        ])) [
          | some query ↦ (bounded_text-le query 512 (omega arith), tt)
          | none ↦
              only_if-IsShort {V = Value N} unnamed (web_search_started "DeepSeek 服务端网络搜索")
                (omega arith)
        ]

  search_ended-IsShort :
      (kind : List ℕ) (value item : Value N) → All IsShort (search_ended kind value item)
  unfolding search_ended
  search_ended-IsShort kind value item =
      only_if-IsShort
        (codes_contain kind (codes "completed")
          || (str_eq (text_or "" (get_str item "type")) "web_search_call" && ends_with_done kind))
        (web_search_completed (zero_or (get value "count" >>= as_u64) 0)) tt

  -- Whatever an event of the provider holds, the texts of a search that are read from it keep the
  -- limits of 512, 256, 2048 and 4096 bytes for a query, a title, a URL and a snippet.
  pub append_native_search_events-IsShort :
      (value : Value N) → All IsShort (append_native_search_events value)
  unfolding append_native_search_events
  append_native_search_events-IsShort value =
      let kind = lower_codes (text_or "" (get_str value "type")) in
      let item = or_null (get value "item") in
      All-append IsShort (search_started kind value item) _ (search_started-IsShort kind value item)
        (All-append IsShort (search_result value) _ (search_result-IsShort value) (
          All-append IsShort (append_url_citations item) (search_ended kind value item)
            (append_url_citations-IsShort item) (search_ended-IsShort kind value item)))
