-- ===== src/Provider/Retry.antt =====
-- Retrying (provider/mod.rs).
use h_agent_core.Base.{
  ℕ, ◌-◌, ◌*◌, ◌^◌, ◌≤◌, min, String, ◌≡◌, ap, ◌⊎◌, inl, inr, ◌↔◌, true, ◌||◌, Option, none, some,
  arith, saturating_mul,
}
use native.Mathlib.Nat.{pow-le-pow_right, mul-le-mul, le_refl}
use native.Mathlib.Decide.{dec_le, ℕ_discrete}
use h_agent_core.Provider.{
  ProviderError, http, status, protocol, receiver_closed, exponential_backoff, is_retryable_status,
  retry_delay, unwrap_or, is_context_overflow,
}

-- The failures that may be retried: a request that was not sent, and the listed statuses.
abbrev pub IsRetryable : ProviderError → Type 0
IsRetryable (http is_connect is_request) = (is_connect || is_request) ≡ true
IsRetryable (status code message retry_after_ms) = is_retryable_status code ≡ true
IsRetryable (protocol message) = ⊥
IsRetryable receiver_closed = ⊥

-- A failure is retried exactly if it is of a retryable kind, whatever the attempt.
pub retry_delay_iff :
    (e : ProviderError) (attempt initial_ms max_ms : ℕ)
    → ((delay : ℕ) × (retry_delay e attempt initial_ms max_ms ≡ some delay)) ↔ IsRetryable e
unfolding retry_delay
retry_delay_iff (http c r) attempt initial_ms max_ms =
    (λ (d, h). ground arith, λ h. (exponential_backoff attempt initial_ms max_ms, rw h))
retry_delay_iff (status code message after) attempt initial_ms max_ms = (
  λ (d, h). ground arith,
  λ h. (min (unwrap_or after (exponential_backoff attempt initial_ms max_ms)) max_ms, rw h),
)
retry_delay_iff (protocol message) attempt initial_ms max_ms = (λ (d, h). cc, λ h. elim h [ ])
retry_delay_iff receiver_closed attempt initial_ms max_ms = (λ (d, h). cc, λ h. elim h [ ])

-- No wait is longer than the configured maximum, also where the provider asks for more.
pub retry_delay-le :
    (e : ProviderError) (attempt initial_ms max_ms : ℕ) {delay : ℕ}
    → retry_delay e attempt initial_ms max_ms ≡ some delay
    → delay ≤ max_ms
unfolding retry_delay exponential_backoff
retry_delay-le (http c r) attempt initial_ms max_ms h = ground arith
retry_delay-le (status code message none) attempt initial_ms max_ms h = ground arith
retry_delay-le (status code message (some after)) attempt initial_ms max_ms h = ground arith
retry_delay-le (protocol message) attempt initial_ms max_ms h = cc
retry_delay-le receiver_closed attempt initial_ms max_ms h = cc

saturating_mul_mono : (a b c : ℕ) → b ≤ c → saturating_mul a b ≤ saturating_mul a c
saturating_mul_mono a b c h = grind arith

shift_mono : (m n : ℕ) → m ≤ n → 2 ^ m ≤ 2 ^ n
shift_mono m n h = pow-le-pow_right {n = 2} (omega arith) h

-- From one attempt to a later one the backoff never shrinks.
pub exponential_backoff_mono :
    (first later initial_ms max_ms : ℕ)
    → first ≤ later
    → exponential_backoff first initial_ms max_ms ≤ exponential_backoff later initial_ms max_ms
unfolding exponential_backoff
exponential_backoff_mono first later initial_ms max_ms h =
    let p = shift_mono (min (first - 1) 20) (min (later - 1) 20) (omega arith) in
    let q = saturating_mul_mono initial_ms (2 ^ min (first - 1) 20) (2 ^ min (later - 1) 20) p in
    omega (arith, q)

within : (initial_ms k : ℕ) → initial_ms ≤ 2000 → k ≤ 20 → initial_ms * 2 ^ k ≤ 2000 * 2 ^ 20
within initial_ms k h le = mul-le-mul h (shift_mono k 20 le)

-- Within the bounds that the configuration is held to (an initial wait from 1 to 2000 ms, a
-- longest one of 2^20 ms at most) neither the capped shift nor the saturating product shows: the
-- wait doubles with each attempt until it reaches the longest one.
pub exponential_backoff_doubles :
    (attempt initial_ms max_ms : ℕ)
    → 1 ≤ initial_ms
    → initial_ms ≤ 2000
    → max_ms ≤ 2 ^ 20
    → exponential_backoff attempt initial_ms max_ms ≡ min (initial_ms * 2 ^ (attempt - 1)) max_ms
unfolding exponential_backoff
exponential_backoff_doubles attempt initial_ms max_ms lo hi top = elim (dec_le (attempt - 1) 20) [
  | yes few ↦
      let e : min (attempt - 1) 20 ≡ attempt - 1 = omega arith in
      rw e (ground (arith, within initial_ms (attempt - 1) hi few))
  | no many ↦
      let e : min (attempt - 1) 20 ≡ 20 = omega arith in
      let p = mul-le-mul lo (le_refl (2 ^ 20)) in
      let q = mul-le-mul lo (shift_mono 20 (attempt - 1) (omega arith)) in
      rw e (ground (arith, p, q))
]

-- A failure that is taken for a context overflow is not retried as it stands, but for the status
-- 408: the two ways of recovering from an error do not mix.
pub overflow_not_retried :
    (e : ProviderError) (attempt initial_ms max_ms : ℕ)
    → is_context_overflow e ≡ true
    → (retry_delay e attempt initial_ms max_ms ≡ none)
      ⊎ ((message : String) × (after : Option ℕ) × (e ≡ status 408 message after))
unfolding retry_delay is_context_overflow is_retryable_status
overflow_not_retried (status code message after) attempt initial_ms max_ms h =
    elim (ℕ_discrete code 408) [
      | yes same ↦ inr (message, after, ap (λ c. status c message after) same)
      | no other ↦ inl (ground arith)
    ]
overflow_not_retried (http c r) attempt initial_ms max_ms h = cc
overflow_not_retried (protocol m) attempt initial_ms max_ms h = cc
overflow_not_retried receiver_closed attempt initial_ms max_ms h = cc
