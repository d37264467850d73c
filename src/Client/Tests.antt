-- ===== src/Client/Tests.antt =====
-- Two refused connections and then a response.
use base_layer.Base.{ℕ, zero, suc, ◌+◌, ◌≤◌, true, false, none, ◌≡◌, ◌⊎◌, refl}
use base_layer.Samples.{launch, eu}
use base_layer.Client.{
  thrown_error, Outcome, returns, throws, Response, created, create_failed, request, timeout,
  transient, fetch_with_transient_retry, create_remote_session, resolve_remote_create_timeout_ms,
  is_transient_fetch_error,
}
use base_layer.Client.Retry.{fetch_with_transient_retry-last}

abbrev fetch : ℕ → Outcome Response
fetch zero = throws (thrown_error "TypeError" "Fetch failed")
fetch (suc zero) = throws (thrown_error "Error" "connect ECONNREFUSED 10.0.0.1:80")
fetch (suc (suc n)) = returns (record { ok_status = true; body = launch })

fetch_with_transient_retry-last_example :
    (1 ≤ (fetch_with_transient_retry fetch 3).0)
    × ((fetch_with_transient_retry fetch 3).0 ≤ 3 + 1)
    × ((last : ℕ) × (last + 1 ≡ (fetch_with_transient_retry fetch 3).0)
        × ((fetch_with_transient_retry fetch 3).1 ≡ fetch last))
    × (((fetch_with_transient_retry fetch 3).0 ≡ 3 + 1)
        ⊎ (transient fetch (fetch_with_transient_retry fetch 3).1 ≡ false))
    × (((fetch_with_transient_retry fetch 3).0 ≤ 1 + 1) ⊎ (transient fetch (fetch 1) ≡ true))
fetch_with_transient_retry-last_example = fetch_with_transient_retry-last fetch 3 1

third : create_remote_session fetch 3 ≡ created launch
unfolding create_remote_session is_transient_fetch_error
third = refl

given_up : create_remote_session fetch 1 ≡ create_failed request
unfolding create_remote_session is_transient_fetch_error
given_up = refl

-- A timeout is not tried again.
timed_out :
    create_remote_session (λ n. throws (thrown_error "TimeoutError" "The operation timed out")) 3
    ≡ create_failed timeout
unfolding create_remote_session is_transient_fetch_error
timed_out = refl

budget : resolve_remote_create_timeout_ms 30000 1 20000 eu none ≡ 70000
unfolding resolve_remote_create_timeout_ms
budget = refl
