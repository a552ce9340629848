-- ===== src/Requests/Acceptance.antt =====
-- `verify_signed_runner_request` accepts what `sign_runner_request` signs
-- (src/eslams/contracts/security.py).
use Prim.Native.Char.{code}
use Prim.Native.String.{count}
use e_slams.Prelude.{
  &&_intro, &&_split, ==_iff, All, Option, String, [], arith, eq_iff, false, leb, length, ltb, not,
  refl, some, str_eq, true, ℕ, ◌&&◌, ◌*◌, ◌+◌, ◌<◌, ◌==◌, ◌∷◌, ◌≡◌, ◌≤◌,
}
use e_slams.Nonces.Claims.{claim-admits}
use e_slams.Requests.{
  AuthConfig, Request, all_chars, authenticate_payload, authorized, in_window, is_authentic,
  is_clean, is_digest, is_hex, is_newline, join_lines, microseconds, record_nonce, secret_for, sign,
  signing_string, stored, verify, verify_signature,
}
use e_slams.Nonces.{Store, holds, live}

same_text : (t : String) → str_eq t t ≡ true
same_text t = (eq_iff t t).1 refl

hex_chars :
    (text : String)
    → all_chars is_hex text ≡ true
    → all_chars (λ c. not (is_newline c) && not (code c == 13)) text ≡ true
unfolding all_chars
hex_chars String.[] h = refl
hex_chars (String.◌∷◌ c s) h =
    let digit : is_hex c ≡ true = (&&_split (is_hex c) (all_chars is_hex s) h).0 in
    let tail = hex_chars s (&&_split (is_hex c) (all_chars is_hex s) h).1 in
    let head : (not (is_newline c) && not (code c == 13)) ≡ true = ground arith in
    &&_intro _ _ head tail

algorithm_clean : is_clean "hmac-sha256" ≡ true
unfolding all_chars
algorithm_clean = refl

digest_clean : (text : String) → is_digest text ≡ true → is_clean text ≡ true
digest_clean text h =
    let (n, hex) = &&_split _ _ h in
    let chars = hex_chars text hex in let size = (==_iff (count text) 64).0 n in ground arith

module _ (hmac_sha256 : String → String → String) (sha256 : String → String)
    (upper : String → String) (parse_utc_timestamp : String → Option ℕ)
    (hmac-IsDigest : (secret text : String) → is_digest (hmac_sha256 secret text) ≡ true)
    (sha-IsDigest : (text : String) → is_digest (sha256 text) ≡ true) where
  -- A request that is sent with a signature of `sign`.
  abbrev sent : String → String → String → String → String → String → String → String → ℕ → Request
  sent secret method path body timestamp nonce request_id key_id now = record {
    method = method;
    path = path;
    body = body;
    payload = some (
        sign hmac_sha256 sha256 upper parse_utc_timestamp secret method path body timestamp nonce
          request_id key_id);
    now = now;
  }

  module _ (secret method path body timestamp nonce request_id key_id : String)
      (clean : All
        (λ t. is_clean t ≡ true)
        (upper method ∷ path ∷ timestamp ∷ nonce ∷ request_id ∷ key_id ∷ [])) where
    signature-holds :
        verify_signature hmac_sha256 sha256 upper parse_utc_timestamp secret (
          sign hmac_sha256 sha256 upper parse_utc_timestamp secret method path body timestamp nonce
            request_id key_id)
        ≡ true
    unfolding verify_signature sign signing_string
    signature-holds =
        let (m, (a, (t, (n, (r, (k, _)))))) = clean in
        let digest = sha-IsDigest body in
        let b = digest_clean _ digest in
        let mac =
          hmac-IsDigest secret (
            join_lines (upper method ∷ path ∷ sha256 body ∷ timestamp ∷ nonce ∷ request_id ∷ [])) in
        let g = digest_clean _ mac in
        rw (m, a, t, n, r, k, b, g, mac, algorithm_clean) (same_text _)

    signed_nonce :
        (config : AuthConfig) (now : ℕ)
        → secret_for key_id config.secrets_by_key_id ≡ some secret
        → count nonce ≤ 256
        → is_authentic hmac_sha256 sha256 upper parse_utc_timestamp config
            (sent secret method path body timestamp nonce request_id key_id now)
            (sign hmac_sha256 sha256 upper parse_utc_timestamp secret method path body timestamp
              nonce request_id key_id)
          ≡ true
    unfolding is_authentic sign
    signed_nonce config now key short =
        let (_, (_, (_, (n, _)))) = clean in
        let long_enough : leb 1 (count nonce) ≡ true = ground arith in
        let short_enough : leb (count nonce) 256 ≡ true = ground arith in
        rw
          (
            same_text (upper method),
            same_text path,
            long_enough,
            short_enough,
            sha-IsDigest body,
            same_text (sha256 body),
            key,
          )
          signature-holds

    window_open :
        (config : AuthConfig) (now signed_at : ℕ)
        → now ≤ signed_at + config.max_age_seconds * 1000000
        → signed_at ≤ now + 60000000
        → in_window hmac_sha256 sha256 upper parse_utc_timestamp config now (some signed_at)
          ≡ some (signed_at + microseconds config.max_age_seconds)
    unfolding in_window
    window_open config now signed_at fresh_enough past_enough =
        let young : ltb (signed_at + microseconds config.max_age_seconds) now ≡ false =
          ground arith in
        let past : ltb (now + microseconds 60) signed_at ≡ false = ground arith in
        rw (young, past) refl

    checks-pass :
        (config : AuthConfig) (now signed_at : ℕ)
        → secret_for key_id config.secrets_by_key_id ≡ some secret
        → count nonce ≤ 256
        → parse_utc_timestamp timestamp ≡ some signed_at
        → now ≤ signed_at + config.max_age_seconds * 1000000
        → signed_at ≤ now + 60000000
        → authenticate_payload hmac_sha256 sha256 upper parse_utc_timestamp config
            (sent secret method path body timestamp nonce request_id key_id now)
            (some (
              sign hmac_sha256 sha256 upper parse_utc_timestamp secret method path body timestamp
                nonce request_id key_id))
          ≡ some (nonce, signed_at + microseconds config.max_age_seconds)
    unfolding authenticate_payload sign
    checks-pass config now signed_at key short parsed fresh_enough past_enough =
        rw
          (
            signed_nonce config now key short,
            parsed,
            window_open config now signed_at fresh_enough past_enough,
          )
          refl

    -- A request signed with a secret that the configuration has for its key, with clean fields, in
    -- its window of time, is authorized by a store that has room and does not hold its nonce, if
    -- the digests are texts of 64 hexadecimal digits.
    pub sign-authorized :
        (config : AuthConfig) (s : Store) (now signed_at : ℕ)
        → config.is_signed ≡ true
        → secret_for key_id config.secrets_by_key_id ≡ some secret
        → count nonce ≤ 256
        → parse_utc_timestamp timestamp ≡ some signed_at
        → now ≤ signed_at + config.max_age_seconds * 1000000
        → signed_at ≤ now + 60000000
        → holds nonce (live now s.entries) ≡ false
        → length (live now s.entries) < s.max_entries
        → (verify hmac_sha256 sha256 upper parse_utc_timestamp config
            (stored s)
            (sent secret method path body timestamp nonce request_id key_id now)).1
          ≡ authorized
    unfolding verify record_nonce
    sign-authorized config s now signed_at on key short parsed fresh_enough past_enough unheld
          room =
        let expiry = signed_at + microseconds config.max_age_seconds in
        let (_, (_, (_, (n, _)))) = clean in
        let size : 1 ≤ count nonce = ground arith in
        let admitted = claim-admits s nonce expiry now size short fresh_enough unheld room in
        rw
          (on, checks-pass config now signed_at key short parsed fresh_enough past_enough, admitted)
          refl
