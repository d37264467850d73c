-- ===== src/Client.antt =====
-- src/api/client.ts: the control plane's calls of the node agents. What `fetch` does on its n-th call is a
-- parameter: it returns a response or throws, and an error that is no `Error` has no text.
pub mod Retry
mod Tests
use base_layer.Base.{
  ℕ, zero, suc, ◌+◌, ◌*◌, max, Bool, true, false, ◌&&◌, ◌||◌, not, Option, none, some, List, [],
  ◌∷◌, ◌++◌, String, ◌==◌, ◌≡◌, leb, ltb, nat_eq, if◌then◌else◌, any, codes, starts_with,
}
use base_layer.Types.{HostRecord, RuntimeLaunchResult, firecracker, same_mode}

-- An `Error` with its name and its message, and any other value that is thrown.
pub data Thrown : Type 0 where
  thrown_error : String → String → Thrown
  other_value : Thrown

pub data Outcome (A : Type 0) : Type 0 where
  returns : A → Outcome A
  throws : Thrown → Outcome A

-- `toLowerCase()` where it gives ASCII characters: the Kelvin sign and the dotted I do too.
lower_code : ℕ → List ℕ
lower_code c =
    if nat_eq c 0x212A
    then b'k' ∷ []
    else if nat_eq c 0x130
    then b'i' ∷ 0x307 ∷ []
    else if leb b'A' c && leb c b'Z'
    then (c + 32) ∷ []
    else c ∷ []

unfoldable pub lower_codes : List ℕ → List ℕ
unfolding lower_code
lower_codes [] = []
lower_codes (c ∷ cs) = lower_code c ++ lower_codes cs

-- `text.includes(word)`
unfoldable pub contains : List ℕ → List ℕ → Bool
unfolding starts_with
contains [] word = starts_with [] word
contains (c ∷ cs) word = starts_with (c ∷ cs) word || contains cs word

abbrev mentions : String → String → Bool
mentions text word = contains (lower_codes (codes text)) (codes word)

unfoldable pub is_transient_fetch_error : Thrown → Bool
unfolding lower_codes contains
is_transient_fetch_error other_value = false
is_transient_fetch_error (thrown_error name text) = any (mentions text) (
    "fetch failed" ∷ "econnrefused" ∷ "socket hang up" ∷ "und_err_connect_timeout"
    ∷ "other side closed" ∷ [])

unfoldable pub is_timeout_fetch_error : Thrown → Bool
unfolding lower_codes contains
is_timeout_fetch_error other_value = false
is_timeout_fetch_error (thrown_error name text) =
    name == "TimeoutError"
    || name == "AbortError"
    || mentions text "timed out"
    || mentions text "abort"

-- `requested ?? configured`
abbrev or_default : Option ℕ → ℕ → ℕ
or_default none configured = configured
or_default (some requested) configured = requested

-- `resolveRemoteCreateTimeoutMs`, with the configured values that it reads.
unfoldable pub resolve_remote_create_timeout_ms : ℕ → ℕ → ℕ → HostRecord → Option ℕ → ℕ
resolve_remote_create_timeout_ms remote_create_timeout_ms restore_retries restore_timeout_ms host
      requested =
    let configured = or_default requested remote_create_timeout_ms in
    if not (same_mode host.mode firecracker)
    then configured
    else max configured (max 1 (1 + restore_retries) * (restore_timeout_ms + 10000) + 10000)

module _ {A : Type 0} (fetch : ℕ → Outcome A) where
  abbrev pub transient : Outcome A → Bool
  transient (returns a) = false
  transient (throws e) = is_transient_fetch_error e

  -- The loop of `fetchWithTransientRetry`, from an attempt on and with the retries that are left: how many
  -- calls have been made by the end, and what the last did.
  unfoldable pub retry_from : ℕ → ℕ → ℕ × Outcome A
  retry_from zero attempt = (attempt + 1, fetch attempt)
  retry_from (suc left) attempt =
      let later = retry_from left (attempt + 1) in
      if transient (fetch attempt) then later else (attempt + 1, fetch attempt)

  unfoldable pub fetch_with_transient_retry : ℕ → ℕ × Outcome A
  unfolding retry_from
  fetch_with_transient_retry retries = retry_from retries 0

pub data CreateErrorKind : Type 0 where
  timeout request response : CreateErrorKind

pub record Response : Type 0 where
  pub ok_status : Bool
  pub body : RuntimeLaunchResult

-- What `createRemoteSession` returns, or the kind of the error that it throws.
pub data Created : Type 0 where
  created : RuntimeLaunchResult → Created
  create_failed : CreateErrorKind → Created

abbrev created_from : Outcome Response → Created
created_from (throws e) =
    create_failed
      (if is_timeout_fetch_error e then CreateErrorKind.timeout else CreateErrorKind.request)
created_from (returns r) =
    if r.ok_status then created r.body else create_failed CreateErrorKind.response

unfoldable pub create_remote_session : (ℕ → Outcome Response) → ℕ → Created
unfolding fetch_with_transient_retry is_timeout_fetch_error
create_remote_session fetch retries = created_from (fetch_with_transient_retry fetch retries).1
