-- ===== src/Requests/Signing.antt =====
-- `signing_string` of src/eslams/contracts/security.py loses nothing.
use Prim.Native.Char.{code, Char}
use Prim.Native.String.{◌++◌ as append}
use Prim.Native.String.append.{nil as append_nil, cons as append_cons}
use e_slams.Prelude.{
  &&_intro, &&_split, All, Bool, List, Option, String, [], all, ap, false, not, refl, true, ℕ, ◌&&◌,
  ◌==◌, ◌∙◌, ◌∷◌, ◌≡◌,
}
use e_slams.Requests.{
  Signed, all_chars, fields_of, is_clean, is_clean_payload, is_newline, join_lines, signing_string,
  verify_signature,
}

abbrev pub no_newline : String → Bool
no_newline text = all_chars (λ c. not (is_newline c)) text

abbrev newline : Char
newline = "\n"

append-newline : (x : String) → append "\n" x ≡ String.◌∷◌ newline x
append-newline x =
    let k : append "\n" x ≡ String.◌∷◌ newline (append "" x) = append_cons newline "" x in
    k ∙ ap (String.◌∷◌ newline) (append_nil x)

-- The first line of a text is what stands before its first newline.
first_line :
    (a b x y : String)
    → no_newline a ≡ true
    → no_newline b ≡ true
    → append a (String.◌∷◌ newline x) ≡ append b (String.◌∷◌ newline y)
    → (a ≡ b) × (x ≡ y)
unfolding all_chars
first_line String.[] String.[] x y p q h =
    let k : String.◌∷◌ newline x ≡ String.◌∷◌ newline y = simp append_nil at h in (refl, cc)
first_line String.[] (String.◌∷◌ d b) x y p q h =
    let k : String.◌∷◌ newline x ≡ String.◌∷◌ d (append b (String.◌∷◌ newline y)) =
      simp (append_nil, append_cons) at h in
    let e : newline ≡ d = cc in absurd (let bad : false ≡ true = rw (← e) at q in cc)
first_line (String.◌∷◌ c a) String.[] x y p q h =
    let k : String.◌∷◌ c (append a (String.◌∷◌ newline x)) ≡ String.◌∷◌ newline y =
      simp (append_nil, append_cons) at h in
    let e : c ≡ newline = cc in absurd (let bad : false ≡ true = rw e at p in cc)
first_line (String.◌∷◌ c a) (String.◌∷◌ d b) x y p q h =
    let k : String.◌∷◌ c (append a (String.◌∷◌ newline x))
        ≡ String.◌∷◌ d (append b (String.◌∷◌ newline y)) =
      simp append_cons at h in
    let e : c ≡ d = cc in
    let rest : append a (String.◌∷◌ newline x) ≡ append b (String.◌∷◌ newline y) = cc in
    let (u, v) = first_line a b x y (&&_split _ _ p).1 (&&_split _ _ q).1 rest in
    (rw (e, u) refl, v)

clean_chars :
    (text : String)
    → all_chars (λ c. not (is_newline c) && not (code c == 13)) text ≡ true
    → no_newline text ≡ true
unfolding all_chars
clean_chars String.[] h = refl
clean_chars (String.◌∷◌ c s) h =
    let (e, rest) = &&_split _ _ h in &&_intro _ _ (&&_split _ _ e).0 (clean_chars s rest)

clean_line : (text : String) → is_clean text ≡ true → no_newline text ≡ true
clean_line text h = clean_chars text (&&_split _ _ h).1

all-All :
    (test : String → Bool) (xs : List String) → all test xs ≡ true → All (λ x. test x ≡ true) xs
all-All test [] h = tt
all-All test (x ∷ xs) h = let (e, rest) = &&_split _ _ h in (e, all-All test xs rest)

-- The fields that a signature covers are the same.
abbrev pub SameRequest : Signed → Signed → Type 0
SameRequest p q =
    (p.method ≡ q.method)
    × (p.path ≡ q.path)
    × (p.body_sha256 ≡ q.body_sha256)
    × (p.timestamp ≡ q.timestamp)
    × (p.nonce ≡ q.nonce)
    × (p.request_id ≡ q.request_id)

same_fields :
    (p q : Signed)
    → is_clean_payload p ≡ true
    → is_clean_payload q ≡ true
    → signing_string p ≡ signing_string q
    → SameRequest p q
unfolding signing_string join_lines
same_fields p q c d h =
    let (_, (_, (_, (m, (a, (b, (t, (n, _)))))))) = all-All is_clean (fields_of p) c in
    let (_, (_, (_, (m', (a', (b', (t', (n', _)))))))) = all-All is_clean (fields_of q) d in
    let (u, h1) =
      first_line p.method q.method _ _ (clean_line _ m) (clean_line _ m')
        (simp append-newline at h) in
    let (v, h2) = first_line p.path q.path _ _ (clean_line _ a) (clean_line _ a') h1 in
    let (w, h3) =
      first_line p.body_sha256 q.body_sha256 _ _ (clean_line _ b) (clean_line _ b') h2 in
    let (x, h4) = first_line p.timestamp q.timestamp _ _ (clean_line _ t) (clean_line _ t') h3 in
    let (y, h5) = first_line p.nonce q.nonce _ _ (clean_line _ n) (clean_line _ n') h4 in
    (u, v, w, x, y, h5)

module _ (hmac_sha256 : String → String → String) (sha256 : String → String)
    (upper : String → String) (parse_utc_timestamp : String → Option ℕ) where
  verified_clean :
      (secret : String) (p : Signed)
      → verify_signature hmac_sha256 sha256 upper parse_utc_timestamp secret p ≡ true
      → is_clean_payload p ≡ true
  unfolding verify_signature
  verified_clean secret p v = (&&_split _ _ (&&_split _ _ (&&_split _ _ v).0).0).0

  -- Two payloads whose signatures hold, and whose signed texts are the same, are for the same
  -- method, path, body digest, timestamp, nonce and request identifier.
  pub signing_string-injective :
      (secret other_secret : String) (p q : Signed)
      → verify_signature hmac_sha256 sha256 upper parse_utc_timestamp secret p ≡ true
      → verify_signature hmac_sha256 sha256 upper parse_utc_timestamp other_secret q ≡ true
      → signing_string p ≡ signing_string q
      → SameRequest p q
  signing_string-injective secret other_secret p q v w h =
      same_fields p q (verified_clean secret p v) (verified_clean other_secret q w) h
