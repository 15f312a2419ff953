-- ===== src/Replication/Retry.antt =====
-- crates/save-common/src/retry.rs, `retry_with_backoff`. `op n` is what the operation gives when it
-- is called for the (n + 1)-st time. The delays between calls, computed in floating point with a
-- random jitter, are left out, and with them the panic that a delay of 0 with a jitter ends in.
use save.Prelude.{
  ℕ, zero, suc, ◌+◌, ◌≡◌, ◌⊎◌, Option, none, some, Bool, true, false, ◌&&◌, ltb, if◌then◌else◌,
}
use save.Prelude.Result.{Result, ok, err}

pub record RetryConfig : Type 0 where
  pub max_retries : ℕ

module _ {E T : Type 0} (op : ℕ → Result E T) (is_retryable : E → Bool) (config : RetryConfig) where
  -- The `loop` on fuel: its result and the number of calls made.
  unfoldable pub retry_loop : ℕ → ℕ → Option (Result E T × ℕ)
  retry_loop zero attempt = none
  retry_loop (suc fuel) attempt = elim (op attempt) [
    | ok result ↦ some (ok result, attempt + 1)
    | err e ↦
        let rest = retry_loop fuel (attempt + 1) in
        if ltb attempt config.max_retries && is_retryable e then rest else some (err e, attempt + 1)
  ]

  unfoldable pub retry_with_backoff : Option (Result E T × ℕ)
  unfolding retry_loop
  retry_with_backoff = retry_loop (config.max_retries + 1) 0

  -- A failed call after which another one may be made.
  abbrev pub Retryable : ℕ → Type 0
  Retryable n = (e : E) × (op n ≡ err e) × (is_retryable e ≡ true)

  -- That call `n` is the one whose result is given: it is a success, or retries are used up, or its
  -- error is not to be retried.
  abbrev pub Final : ℕ → Type 0
  Final n =
      ((t : T) × (op n ≡ ok t))
      ⊎ ((n ≡ config.max_retries) ⊎ ((e : E) × (op n ≡ err e) × (is_retryable e ≡ false)))
