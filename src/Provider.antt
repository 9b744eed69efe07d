-- ===== src/Provider.antt =====
-- provider/mod.rs: the retry decision for a failed request, and the recognition of a context
-- overflow. Of a transport error (`reqwest::Error`) the code asks only `is_connect` and
-- `is_request`, so it is those two answers.
pub mod Retry
mod Tests
use h_agent_core.Base.{
  ℕ, ◌+◌, ◌-◌, ◌^◌, min, String, Bool, true, false, ◌&&◌, ◌||◌, List, [], ◌∷◌, Option, none, some,
  leb, ◌==◌, if◌then◌else◌, any, saturating_mul, codes, lower_codes, codes_contain,
}

pub data ProviderError : Type 0 where
  http : (is_connect is_request : Bool) → ProviderError
  status : (code : ℕ) (message : String) (retry_after_ms : Option ℕ) → ProviderError
  protocol : String → ProviderError
  receiver_closed : ProviderError

-- `1_u64 << attempt.saturating_sub(1).min(20)`, so the shift is by 20 at most.
unfoldable pub exponential_backoff : ℕ → ℕ → ℕ → ℕ
exponential_backoff attempt initial_ms max_ms =
    min (saturating_mul initial_ms (2 ^ min (attempt - 1) 20)) max_ms

unfoldable pub is_retryable_status : ℕ → Bool
is_retryable_status s = any (λ c. s == c) (408 ∷ 429 ∷ 500 ∷ 502 ∷ 503 ∷ 504 ∷ [])

abbrev unwrap_or : Option ℕ → ℕ → ℕ
unwrap_or none d = d
unwrap_or (some n) d = n

unfoldable pub retry_delay : ProviderError → ℕ → ℕ → ℕ → Option ℕ
retry_delay (http is_connect is_request) attempt initial_ms max_ms =
    if is_connect || is_request then some (exponential_backoff attempt initial_ms max_ms) else none
retry_delay (status code message retry_after_ms) attempt initial_ms max_ms =
    if is_retryable_status code
    then some
        (min (unwrap_or retry_after_ms (exponential_backoff attempt initial_ms max_ms)) max_ms)
    else none
retry_delay (protocol message) attempt initial_ms max_ms = none
retry_delay receiver_closed attempt initial_ms max_ms = none

abbrev pub overflow_wordings : List String
overflow_wordings =
    "context length" ∷ "maximum context length" ∷ "prompt is too long" ∷ "input too large"
    ∷ "too many tokens" ∷ "context window" ∷ []

unfoldable pub is_context_overflow : ProviderError → Bool
is_context_overflow (status code message retry_after_ms) =
    (leb 400 code && leb code 413)
    && any (λ needle. codes_contain (lower_codes message) (codes needle)) overflow_wordings
is_context_overflow _ = false
