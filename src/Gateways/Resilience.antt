-- ===== src/Gateways/Resilience.antt =====
-- `withRetry`, `isRetryable`, `wrapError` and `executeWithResilience` of
-- src/gateway/stripe/stripe.adapter.ts. The delays between the attempts are left out. The circuit
-- breaker is third-party code and an argument: what it makes of the outcome of an action.
use edge_billing_service.Base.{
  ℕ, suc, zero, ◌≤◌, ◌<◌, ◌+◌, ◌-◌, ◌≡◌, refl, leb, ◌==◌, ◌||◌, Bool, true, false, Option, none,
  some, Bool-cases, inl, inr, if◌then◌else◌, arith, subst, sym, ==→eq,
}

-- What an action can throw: an exception of the service, an error of Stripe with its status code
-- and whether it is a connection error, or another error, by what its message includes.
pub data Thrown : Type 0 where
  billing_exception : Thrown
  stripe_error : Option ℕ → Bool → Thrown
  timed_out_connection breaker_open breaker_timeout other_error : Thrown

pub data Answer (A : Type 0) : Type 0 where
  returned : A → Answer A
  threw : Thrown → Answer A

abbrev is_retryable_code : Option ℕ → Bool
is_retryable_code none = false
is_retryable_code (some code) = leb 500 code || (code == 429)

unfoldable pub is_retryable : Thrown → Bool
is_retryable (stripe_error code is_connection) = is_retryable_code code || is_connection
is_retryable timed_out_connection = true
is_retryable billing_exception = false
is_retryable breaker_open = false
is_retryable breaker_timeout = false
is_retryable other_error = false

-- `MAX_RETRIES`
abbrev pub max_retries : ℕ
max_retries = 3

-- The answer after so many calls, or what the next attempt comes to.
unfoldable pub retry_or_stop : {A : Type 0} → Answer A → Answer A × ℕ → ℕ → Answer A × ℕ
unfolding is_retryable
retry_or_stop (returned a) next calls = (returned a, calls)
retry_or_stop (threw x) next calls = if is_retryable x then next else (threw x, calls)

final_not_retried : (x : Thrown) → is_retryable x ≡ false → is_retryable x ≡ true → ⊥
final_not_retried x e h = cc

module _ {A : Type 0} (action : ℕ → Answer A) where
  -- The attempt with this number, counted from 0, and the retries that are left after it: the
  -- answer, and the number of calls of the action.
  unfoldable pub retry_from : ℕ → ℕ → Answer A × ℕ
  unfolding retry_or_stop
  retry_from zero attempt = (action attempt, suc attempt)
  retry_from (suc left) attempt =
      retry_or_stop (action attempt) (retry_from left (suc attempt)) (suc attempt)

  -- `withRetry`: the action answers each call by its number.
  unfoldable pub with_retry : Answer A × ℕ
  unfolding retry_from
  with_retry = retry_from (max_retries - 1) 0

  -- The answer is an error that the loop retries.
  abbrev pub IsRetried : Answer A → Type 0
  IsRetried (returned a) = ⊥
  IsRetried (threw x) = is_retryable x ≡ true

  -- What the attempts from a number on come to, where the given number of retries is left: calls
  -- that are retried, then the last call, whose answer is the result and which is not retried
  -- unless no retry is left.
  pub record Retries (left attempt : ℕ) (r : Answer A × ℕ) : Type 0 where
    pub last : ℕ
    pub calls : r.1 ≡ suc last
    pub from : attempt ≤ last
    pub within : last ≤ attempt + left
    pub earlier : (k : ℕ) → attempt ≤ k → k < last → IsRetried (action k)
    pub result : r.0 ≡ action last
    pub exhausted : IsRetried (action last) → last ≡ attempt + left

  stops :
      (left attempt : ℕ) (r : Answer A)
      → r ≡ action attempt
      → (IsRetried (action attempt) → ⊥)
      → Retries left attempt (r, suc attempt)
  stops left attempt r same final = record {
    last = attempt;
    calls = refl;
    from = omega arith;
    within = omega arith;
    earlier = λ k low high. absurd (omega arith);
    result = same;
    exhausted = λ again. absurd (final again);
  }

  continues :
      (left attempt : ℕ) (r : Answer A × ℕ)
      → IsRetried (action attempt)
      → Retries left (suc attempt) r
      → Retries (suc left) attempt r
  continues left attempt r again h = record {
    last = h.last;
    calls = h.calls;
    from = omega (arith, h.from);
    within = omega (arith, h.within);
    earlier = λ k low high. elim (Bool-cases (attempt == k)) [
      | inl same ↦ subst (λ j. IsRetried (action j)) (==→eq attempt k same) again
      | inr other ↦ h.earlier k (ground arith) high
    ];
    result = h.result;
    exhausted = λ last_again. omega (arith, h.exhausted last_again);
  }

  decides :
      (left attempt : ℕ) (next : Answer A × ℕ) (o : Answer A)
      → action attempt ≡ o
      → Retries left (suc attempt) next
      → Retries (suc left) attempt (retry_or_stop o next (suc attempt))
  unfolding retry_or_stop
  decides left attempt next (returned a) e h =
      stops (suc left) attempt (returned a) (sym e) (λ again. subst IsRetried e again)
  decides left attempt next (threw x) e h = elim (Bool-cases (is_retryable x)) [
    | inl again ↦ rw again (continues left attempt next (subst IsRetried (sym e) again) h)
    | inr final ↦ rw final (
        stops (suc left) attempt (threw x) (sym e)
          (λ again. final_not_retried x final (subst IsRetried e again)))
  ]

  retry_from-Retries : (left attempt : ℕ) → Retries left attempt (retry_from left attempt)
  unfolding retry_from
  retry_from-Retries zero attempt = record {
    last = attempt;
    calls = refl;
    from = omega arith;
    within = omega arith;
    earlier = λ k low high. absurd (omega arith);
    result = refl;
    exhausted = λ again. omega arith;
  }
  retry_from-Retries (suc left) attempt =
      decides left attempt (retry_from left (suc attempt)) (action attempt) refl
        (retry_from-Retries left (suc attempt))

  -- The loop makes three calls at most. Every call but the last threw an error that is retried, the
  -- result is the answer to the last one, and that is an error to retry only if it was the third.
  pub with_retry-Retries : Retries 2 0 with_retry
  unfolding with_retry
  with_retry-Retries = retry_from-Retries 2 0

-- What the adapter throws instead: the gateway is unavailable, the payment failed, or the exception
-- as it was.
pub data Failure : Type 0 where
  gateway_unavailable payment_failed as_thrown : Failure

abbrev pub is_server_error : Option ℕ → Bool
is_server_error none = false
is_server_error (some code) = leb 500 code

-- `wrapError`, and the exceptions that are not wrapped.
unfoldable pub wrap_error : Thrown → Failure
wrap_error billing_exception = as_thrown
wrap_error breaker_open = gateway_unavailable
wrap_error (stripe_error code is_connection) =
    if is_server_error code then gateway_unavailable else payment_failed
wrap_error breaker_timeout = gateway_unavailable
wrap_error timed_out_connection = payment_failed
wrap_error other_error = payment_failed

pub data Outcome (A : Type 0) : Type 0 where
  done : A → Outcome A
  failed_with : Failure → Outcome A

abbrev wrapped : {A : Type 0} → Answer A → Outcome A
wrapped (returned a) = done a
wrapped (threw x) = failed_with (wrap_error x)

-- `executeWithResilience`: the breaker runs the loop, or rejects by itself.
unfoldable pub execute_with_resilience :
    {A : Type 0} → (Answer A → Answer A) → (ℕ → Answer A) → Outcome A
unfolding wrap_error with_retry
execute_with_resilience fire action = wrapped (fire (with_retry action).0)
