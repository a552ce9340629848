-- ===== src/Requests/Examples.antt =====
-- A signed request, sent twice, and the theorems on requests at it.
use e_slams.Prelude.{All, Option, String, [], arith, refl, some, true, ℕ, ◌∷◌, ◌≡◌, ◌≢◌}
use e_slams.Nonces.{claim}
use e_slams.Requests.{
  AuthConfig, Backend, Request, Signed, Verdict, all_chars, authorized, is_clean, is_digest, sign,
  signing_string, stored, verify, verify_all, verify_signature,
}
use e_slams.Requests.Signing.{SameRequest, signing_string-injective}
use e_slams.Requests.Acceptance.{sign-authorized}
use e_slams.Requests.Replay.{verify_once}

-- Stand-ins for the digests: texts of 64 hexadecimal digits.
abbrev some_digest : String
some_digest = "00112233445566778899aabbccddeeff00112233445566778899aabbccddeeff"

abbrev test_hmac : String → String → String
test_hmac secret text = some_digest

abbrev test_sha : String → String
test_sha text = some_digest

abbrev test_upper : String → String
test_upper text = "POST"

abbrev test_parse : String → Option ℕ
test_parse text = some 1000000000

abbrev two_keys : AuthConfig
two_keys = record {
  is_signed = true;
  secrets_by_key_id = ("old", "s1") ∷ ("new", "s2") ∷ [];
  max_age_seconds = 300;
}

abbrev first_request : Request
first_request = record {
  method = "post";
  path = "/run";
  body = "{}";
  payload =
      some (
        sign test_hmac test_sha test_upper test_parse "s2" "post" "/run" "{}" "t" "n-1" "r-1"
          "new");
  now = 1010000000;
}

abbrev second_request : Request
second_request = record first_request { now = 1200000000 }

abbrev empty_backend : Backend
empty_backend = stored (record { max_entries = 5; entries = [] })

abbrev test_verify : Backend → Request → Backend × Verdict
test_verify b r = verify test_hmac test_sha test_upper test_parse two_keys b r

first_authorized : (test_verify empty_backend first_request).1 ≡ authorized
unfolding verify verify_signature signing_string sign claim all_chars
first_authorized = refl

verify_once_example :
    (test_verify
      (verify_all test_hmac test_sha test_upper test_parse two_keys
        (test_verify empty_backend first_request).0
        (first_request ∷ second_request ∷ []))
      second_request).1
    ≢ authorized
verify_once_example =
    verify_once test_hmac test_sha test_upper test_parse two_keys empty_backend first_request
      (first_request ∷ second_request ∷ []) second_request first_authorized refl
      (omega arith, (omega arith, tt))

some_digest-IsDigest : is_digest some_digest ≡ true
unfolding all_chars
some_digest-IsDigest = refl

fields_clean : All (λ t. is_clean t ≡ true) ("POST" ∷ "/run" ∷ "t" ∷ "n-1" ∷ "r-1" ∷ "new" ∷ [])
unfolding all_chars
fields_clean = (refl, (refl, (refl, (refl, (refl, (refl, tt))))))

sign-authorized_example : (test_verify empty_backend second_request).1 ≡ authorized
sign-authorized_example =
    sign-authorized test_hmac test_sha test_upper test_parse (λ secret text. some_digest-IsDigest)
      (λ text. some_digest-IsDigest) "s2" "post" "/run" "{}" "t" "n-1" "r-1" "new" fields_clean
      two_keys (record { max_entries = 5; entries = [] }) 1200000000 1000000000 refl refl
      (omega arith) refl (omega arith) (omega arith) refl (omega arith)

abbrev old_payload : Signed
old_payload =
    sign test_hmac test_sha test_upper test_parse "s1" "post" "/run" "{}" "t" "n-1" "r-1" "old"

abbrev new_payload : Signed
new_payload =
    sign test_hmac test_sha test_upper test_parse "s2" "post" "/run" "{}" "t" "n-1" "r-1" "new"

old_holds : verify_signature test_hmac test_sha test_upper test_parse "s1" old_payload ≡ true
unfolding verify_signature signing_string sign all_chars
old_holds = refl

new_holds : verify_signature test_hmac test_sha test_upper test_parse "s2" new_payload ≡ true
unfolding verify_signature signing_string sign all_chars
new_holds = refl

same_signed_text : signing_string old_payload ≡ signing_string new_payload
unfolding signing_string sign
same_signed_text = refl

signing_string-injective_example : SameRequest old_payload new_payload
signing_string-injective_example =
    signing_string-injective test_hmac test_sha test_upper test_parse "s1" "s2" old_payload
      new_payload old_holds new_holds same_signed_text
