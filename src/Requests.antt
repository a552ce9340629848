-- ===== src/Requests.antt =====
-- Signed requests to the runner, src/eslams/contracts/security.py. Instants are microseconds since
-- the epoch. A body is given as its `canonical_json`; the digests, `str.upper` and the parsing of a
-- timestamp are parameters.
pub mod Signing
pub mod Replay
pub mod Acceptance
mod Examples
use mathlib.Core.Option
use Prim.Native.Char.{Char, code}
use Prim.Native.String.{count, ◌++◌ as append}
use e_slams.Prelude.{
  Bool, List, Option, String, [], all, false, if◌then◌else◌, leb, length, ltb, map, none, not, some,
  str_eq, true, ℕ, ◌&&◌, ◌*◌, ◌++◌, ◌+◌, ◌==◌, ◌||◌, ◌∷◌,
}
use e_slams.Nonces.{
  Answer, Entry, NonceStoreError, Store, at_time, claim, fresh, holds, live, refused, replay,
}

-- A payload in which every required field is a string.
pub record Signed : Type 0 where
  pub algorithm : String
  pub key_id : String
  pub signature : String
  pub method : String
  pub path : String
  pub body_sha256 : String
  pub timestamp : String
  pub nonce : String
  pub request_id : String

-- Newline, and the lower-case hexadecimal digits.
abbrev pub is_newline : Char → Bool
is_newline c = code c == 10

abbrev pub is_hex : Char → Bool
is_hex c = (leb 48 (code c) && leb (code c) 57) || (leb 97 (code c) && leb (code c) 102)

-- `all(test(char) for char in text)`
pub all_chars : (Char → Bool) → String → Bool
all_chars test String.[] = true
all_chars test (String.◌∷◌ c s) = test c && all_chars test s

-- `"\n".join(lines)`
pub join_lines : List String → String
join_lines [] = ""
join_lines (x ∷ []) = x
join_lines (x ∷ xs) = append x (append "\n" (join_lines xs))

-- `signing_string`
unfoldable pub signing_string : Signed → String
signing_string p =
    join_lines (p.method ∷ p.path ∷ p.body_sha256 ∷ p.timestamp ∷ p.nonce ∷ p.request_id ∷ [])

abbrev pub is_digest : String → Bool
is_digest text = (count text == 64) && all_chars is_hex text

-- A field of the payload that `verify_runner_request_signature` takes.
abbrev pub is_clean : String → Bool
is_clean text =
    leb 1 (count text)
    && leb (count text) 1024
    && all_chars (λ c. not (is_newline c) && not (code c == 13)) text

abbrev pub fields_of : Signed → List String
fields_of p =
    p.algorithm ∷ p.key_id ∷ p.signature ∷ p.method ∷ p.path ∷ p.body_sha256 ∷ p.timestamp ∷ p.nonce
    ∷ p.request_id ∷ []

abbrev pub is_clean_payload : Signed → Bool
is_clean_payload p = all is_clean (fields_of p)

pub record AuthConfig : Type 0 where
  pub is_signed : Bool
  pub secrets_by_key_id : List (String × String)
  pub max_age_seconds : ℕ

-- The codes of `RunnerRequestAuthError`.
pub data AuthError : Type 0 where
  unconfigured invalid capacity : AuthError

-- How `verify_signed_runner_request` ends: it returns, or it raises RunnerRequestAuthError, an
-- error of the nonce store, or RunnerAuthConfigError.
pub data Verdict : Type 0 where
  authorized : Verdict
  rejected : AuthError → Verdict
  store_failed : NonceStoreError → Verdict
  no_backend : Verdict

-- `nonce_store`, else `seen_nonces`, else neither.
pub data Backend : Type 0 where
  stored : Store → Backend
  seen : List Entry → Backend
  missing : Backend

-- The arguments of one call; `payload` is none where a required field is missing.
pub record Request : Type 0 where
  pub method : String
  pub path : String
  pub body : String
  pub payload : Option Signed
  pub now : ℕ

abbrev microseconds : ℕ → ℕ
microseconds seconds = seconds * 1000000

abbrev pub secret_for : String → List (String × String) → Option String
secret_for key [] = none
secret_for key ((k, secret) ∷ rest) = if str_eq k key then some secret else secret_for key rest

abbrev seen_limit : ℕ
seen_limit = 10000

-- The branch without a nonce store.
admit_seen : List Entry → String → ℕ → ℕ → Backend × Verdict
admit_seen es nonce expiry now =
    let entries = live now es in
    if holds nonce entries
    then (seen entries, rejected invalid)
    else if leb seen_limit (length entries)
    then (seen entries, rejected capacity)
    else (seen (entries ++ record { nonce = nonce; expiry = expiry } ∷ []), authorized)

abbrev store_verdict : Answer → Verdict
store_verdict fresh = authorized
store_verdict replay = rejected invalid
store_verdict (refused error) = store_failed error

record_nonce : Backend → String → ℕ → ℕ → Backend × Verdict
unfolding admit_seen
record_nonce (stored s) nonce expiry now =
    let r = claim s nonce (at_time expiry) (at_time now) in (stored r.0, store_verdict r.1)
record_nonce (seen es) nonce expiry now = admit_seen es nonce expiry now
record_nonce missing nonce expiry now = (missing, no_backend)

module _ (hmac_sha256 : String → String → String) (sha256 : String → String)
    (upper : String → String) (parse_utc_timestamp : String → Option ℕ) where
  -- `signing_payload` and `sign_runner_request`
  unfoldable pub sign :
      String → String → String → String → String → String → String → String → Signed
  sign secret method path body timestamp nonce request_id key_id =
      let payload : Signed = record {
        algorithm = "hmac-sha256";
        key_id = key_id;
        signature = "";
        method = upper method;
        path = path;
        body_sha256 = sha256 body;
        timestamp = timestamp;
        nonce = nonce;
        request_id = request_id;
      } in
      record payload { signature = hmac_sha256 secret (signing_string payload) }

  -- `verify_runner_request_signature`, of a payload with every required field
  unfoldable pub verify_signature : String → Signed → Bool
  verify_signature secret p =
      is_clean_payload p
      && is_digest p.signature
      && str_eq p.algorithm "hmac-sha256"
      && str_eq (hmac_sha256 secret (signing_string p)) p.signature

  abbrev signature_holds : Option String → Signed → Bool
  signature_holds none p = false
  signature_holds (some secret) p = verify_signature secret p

  -- The checks before the timestamp.
  is_authentic : AuthConfig → Request → Signed → Bool
  is_authentic config r p =
      (str_eq p.method (upper r.method) && str_eq p.path r.path)
      && (leb 1 (count p.nonce) && leb (count p.nonce) 256)
      && is_digest p.body_sha256
      && str_eq (sha256 r.body) p.body_sha256
      && signature_holds (secret_for p.key_id config.secrets_by_key_id) p

  -- Neither too old nor from the future, but for a clock skew of 60 seconds: the expiry.
  in_window : AuthConfig → ℕ → Option ℕ → Option ℕ
  in_window config now none = none
  in_window config now (some signed_at) =
      if ltb (signed_at + microseconds config.max_age_seconds) now
        || ltb (now + microseconds 60) signed_at
      then none
      else some (signed_at + microseconds config.max_age_seconds)

  -- The checks of a request that touch no nonce: the nonce and its expiry.
  authenticate_payload : AuthConfig → Request → Option Signed → Option (String × ℕ)
  unfolding is_authentic in_window
  authenticate_payload config r none = none
  authenticate_payload config r (some p) =
      if is_authentic config r p
      then Option.map (λ expiry. (p.nonce, expiry))
          (in_window config r.now (parse_utc_timestamp p.timestamp))
      else none

  abbrev admit_nonce : Backend → ℕ → Option (String × ℕ) → Backend × Verdict
  admit_nonce b now none = (b, rejected invalid)
  admit_nonce b now (some (nonce, expiry)) = record_nonce b nonce expiry now

  -- `verify_signed_runner_request`
  unfoldable pub verify : AuthConfig → Backend → Request → Backend × Verdict
  unfolding authenticate_payload record_nonce
  verify config b r =
      if config.is_signed
      then admit_nonce b r.now (authenticate_payload config r r.payload)
      else (b, rejected unconfigured)

  abbrev pub verify_all : AuthConfig → Backend → List Request → Backend
  verify_all config b [] = b
  verify_all config b (r ∷ rs) = verify_all config (verify config b r).0 rs
