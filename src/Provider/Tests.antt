-- ===== src/Provider/Tests.antt =====
-- Tests and examples for the retry decision of provider/mod.rs.
use h_agent_core.Base.{none, some, ◌≡◌, refl, true, lower_code}
use h_agent_core.Provider.{
  ProviderError, status, exponential_backoff, is_retryable_status, retry_delay, is_context_overflow,
}

abbrev throttled : ProviderError
throttled = status 429 "slow down" (some 60000)

abbrev too_long : ProviderError
too_long = status 400 "This model's Maximum Context Length is 8192 tokens" none

third_attempt : exponential_backoff 3 500 30000 ≡ 2000
unfolding exponential_backoff
third_attempt = refl

waits : retry_delay throttled 1 500 30000 ≡ some 30000
unfolding retry_delay is_retryable_status exponential_backoff
waits = refl

overflows : is_context_overflow too_long ≡ true
unfolding is_context_overflow lower_code
overflows = refl
