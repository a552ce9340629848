-- ===== src/Requests/Replay.antt =====
-- A signed request is authorized at most once: `verify_signed_runner_request` of
-- src/eslams/contracts/security.py with its replay protection.
use mathlib.Core.Option.{some-injective}
use e_slams.Prelude.{
  All, Bool-cases, List, Option, Option-cases, String, [], ap, arith, eq_iff, inl, inr, leb, length,
  ltb, map-some, none, refl, some, sym, true, ℕ, ◌+◌, ◌||◌, ◌∙◌, ◌∷◌, ◌≡◌, ◌≢◌, ◌≤◌,
}
use e_slams.Nonces.{Answer, Entry, at_time, fresh, holds, live, refused, replay}
use e_slams.Nonces.Entries.{holds-live, retained, retained-append, retained-live}
use e_slams.Nonces.Claims.{claim-fresh, claim-retains, claim-stale, retained-earlier}
use e_slams.Requests.{
  AuthConfig, Backend, Request, Signed, Verdict, admit_seen, authenticate_payload, authorized,
  capacity, in_window, invalid, is_authentic, microseconds, missing, record_nonce, rejected, seen,
  seen_limit, store_verdict, stored, unconfigured, verify, verify_all,
}
use e_slams.Arena.{other}

-- The entries that the backend holds.
abbrev entries_of : Backend → List Entry
entries_of (stored s) = s.entries
entries_of (seen es) = es
entries_of missing = []

record_nonce-retains :
    (b : Backend) (other : String) (expiry now : ℕ) (nonce : String) (time : ℕ)
    → now ≤ time
    → retained nonce time (entries_of b) ≡ true
    → retained nonce time (entries_of (record_nonce b other expiry now).0) ≡ true
unfolding record_nonce admit_seen
record_nonce-retains (stored s) other expiry now nonce time le r =
    claim-retains s nonce time
      (record { nonce = other; expires = at_time expiry; now = at_time now }) le r
record_nonce-retains (seen es) other expiry now nonce time le r =
    let kept = retained-live nonce time now es le in
    let added =
      retained-append nonce time (live now es) (record { nonce = other; expiry = expiry }) in
    elim (Bool-cases (holds other (live now es))) [
      | inl h ↦ rw h (kept ∙ r)
      | inr h ↦ elim (Bool-cases (leb seen_limit (length (live now es)))) [
        | inl q ↦ rw (h, q) (kept ∙ r)
        | inr q ↦ rw (h, q) (added ∙ rw (kept, r) refl)
      ]
    ]
record_nonce-retains missing other expiry now nonce time le r = r

authorized_fresh : (a : Answer) → store_verdict a ≡ authorized → a ≡ fresh
authorized_fresh fresh h = refl
authorized_fresh replay h = absurd cc
authorized_fresh (refused error) h = absurd cc

record_nonce-authorized :
    (b : Backend) (nonce : String) (expiry now : ℕ)
    → (record_nonce b nonce expiry now).1 ≡ authorized
    → retained nonce expiry (entries_of (record_nonce b nonce expiry now).0) ≡ true
unfolding record_nonce admit_seen
record_nonce-authorized (stored s) nonce expiry now h =
    claim-fresh s nonce expiry now (authorized_fresh _ h)
record_nonce-authorized (seen es) nonce expiry now f =
    let added =
      retained-append nonce expiry (live now es) (record { nonce = nonce; expiry = expiry }) in
    elim (Bool-cases (holds nonce (live now es))) [
      | inl h ↦ let k : rejected invalid ≡ authorized = rw h at f in cc
      | inr h ↦ elim (Bool-cases (leb seen_limit (length (live now es)))) [
        | inl q ↦ let k : rejected capacity ≡ authorized = rw (h, q) at f in cc
        | inr q ↦
            let same = (eq_iff nonce nonce).1 refl in
            let alive : leb expiry expiry ≡ true = ground arith in
            rw (h, q) (added ∙ rw (same, alive) (ground arith))
      ]
    ]
record_nonce-authorized missing nonce expiry now h = absurd cc

record_nonce-stale :
    (b : Backend) (nonce : String) (time expiry now : ℕ)
    → now ≤ time
    → retained nonce time (entries_of b) ≡ true
    → (record_nonce b nonce expiry now).1 ≢ authorized
unfolding record_nonce admit_seen
record_nonce-stale (stored s) nonce time expiry now le r h =
    claim-stale s nonce time (at_time expiry) (at_time now) le r (authorized_fresh _ h)
record_nonce-stale (seen es) nonce time expiry now le r h =
    let held : holds nonce (live now es) ≡ true =
      holds-live nonce now es ∙ retained-earlier nonce time now es le r in
    let k : rejected invalid ≡ authorized = rw held at h in cc
record_nonce-stale missing nonce time expiry now le r h = cc

module _ (hmac_sha256 : String → String → String) (sha256 : String → String)
    (upper : String → String) (parse_utc_timestamp : String → Option ℕ) where
  -- The nonce of a payload, and the end of its window.
  abbrev nonce_of : Option Signed → Option String
  nonce_of none = none
  nonce_of (some p) = some p.nonce

  abbrev due : AuthConfig → Option ℕ → Option ℕ
  due config none = none
  due config (some signed_at) = some (signed_at + microseconds config.max_age_seconds)

  abbrev expiry_of : AuthConfig → Option Signed → Option ℕ
  expiry_of config none = none
  expiry_of config (some p) = due config (parse_utc_timestamp p.timestamp)

  in_window_lem :
      (config : AuthConfig) (now expiry : ℕ) (signed_at : Option ℕ)
      → in_window hmac_sha256 sha256 upper parse_utc_timestamp config now signed_at ≡ some expiry
      → (now ≤ expiry) × (due config signed_at ≡ some expiry)
  unfolding in_window
  in_window_lem config now expiry none h = absurd cc
  in_window_lem config now expiry (some signed_at) h =
      elim (Bool-cases (
        ltb (signed_at + microseconds config.max_age_seconds) now
        || ltb (now + microseconds 60) signed_at)) [
          | inl q ↦ absurd (let k : none ≡ some expiry = rw q at h in cc)
          | inr q ↦
              let k : some (signed_at + microseconds config.max_age_seconds) ≡ some expiry =
                rw q at h in
              let w = some-injective _ expiry k in (ground arith, k)
        ]

  abbrev checks : AuthConfig → Request → Option Signed → Option (String × ℕ)
  checks config r p = authenticate_payload hmac_sha256 sha256 upper parse_utc_timestamp config r p

  -- What the checks give depends only on the payload, as long as it is given at all.
  authenticate-nonce :
      (config : AuthConfig) (r : Request) (p : Option Signed) (nonce : String) (expiry : ℕ)
      → checks config r p ≡ some (nonce, expiry)
      → (r.now ≤ expiry) × (nonce_of p ≡ some nonce) × (expiry_of config p ≡ some expiry)
  unfolding authenticate_payload
  authenticate-nonce config r none nonce expiry h = absurd cc
  authenticate-nonce config r (some p) nonce expiry h =
      elim (Bool-cases (is_authentic hmac_sha256 sha256 upper parse_utc_timestamp config r p)) [
        | inr q ↦ absurd (let k : none ≡ some (nonce, expiry) = rw q at h in cc)
        | inl q ↦
            let (e, w, same) = map-some _ _ (rw q at h) in
            let (le, end) = in_window_lem config r.now e _ w in
            let n : p.nonce ≡ nonce = ap (λ x. x.0) same in
            let x : e ≡ expiry = ap (λ x. x.1) same in (rw (← x) le, ap some n, rw (← x) end)
      ]

  verify_step : AuthConfig → Backend → Request → Backend × Verdict
  verify_step config b r = verify hmac_sha256 sha256 upper parse_utc_timestamp config b r

  verify-retains :
      (config : AuthConfig) (b : Backend) (r : Request) (nonce : String) (time : ℕ)
      → r.now ≤ time
      → retained nonce time (entries_of b) ≡ true
      → retained nonce time (entries_of (verify_step config b r).0) ≡ true
  unfolding verify verify_step
  verify-retains config b r nonce time le k = elim (Bool-cases config.is_signed) [
    | inr q ↦ rw q k
    | inl q ↦ elim (Option-cases (checks config r r.payload)) [
      | inl e ↦ rw (q, e) k
      | inr ((other, expiry), e) ↦
          rw (q, e) (record_nonce-retains b other expiry r.now nonce time le k)
    ]
  ]

  verify_all-retains :
      (rs : List Request) (config : AuthConfig) (b : Backend) (nonce : String) (time last : ℕ)
      → last ≤ time
      → All (λ r. r.now ≤ last) rs
      → retained nonce time (entries_of b) ≡ true
      → retained nonce time
          (entries_of (verify_all hmac_sha256 sha256 upper parse_utc_timestamp config b rs))
        ≡ true
  unfolding verify_step
  verify_all-retains [] config b nonce time last due le k = k
  verify_all-retains (r ∷ rs) config b nonce time last due (le, rest) k =
      verify_all-retains rs config (verify_step config b r).0 nonce time last due rest
        (verify-retains config b r nonce time (omega arith) k)

  -- An authorized request passed the checks, and its nonce was new.
  verify-authorized :
      (config : AuthConfig) (b : Backend) (r : Request)
      → (verify_step config b r).1 ≡ authorized
      → (nonce : String) × (expiry : ℕ) × (config.is_signed ≡ true)
        × (checks config r r.payload ≡ some (nonce, expiry))
        × ((record_nonce b nonce expiry r.now).1 ≡ authorized)
        × (retained nonce expiry (entries_of (verify_step config b r).0) ≡ true)
  unfolding verify verify_step
  verify-authorized config b r h = elim (Bool-cases config.is_signed) [
    | inr q ↦ absurd (let k : rejected unconfigured ≡ authorized = rw q at h in cc)
    | inl q ↦ elim (Option-cases (checks config r r.payload)) [
      | inl e ↦ absurd (let k : rejected invalid ≡ authorized = rw (q, e) at h in cc)
      | inr ((nonce, expiry), e) ↦
          let k : (record_nonce b nonce expiry r.now).1 ≡ authorized = rw (q, e) at h in
          (nonce, expiry, q, e, k, rw (q, e) (record_nonce-authorized b nonce expiry r.now k))
    ]
  ]

  -- Once a request is authorized, no request with the same signed payload is authorized again,
  -- whatever requests come in between, as long as none of them comes later than it by the clock.
  pub verify_once :
      (config : AuthConfig) (b : Backend) (first : Request) (rs : List Request) (again : Request)
      → (verify hmac_sha256 sha256 upper parse_utc_timestamp config b first).1 ≡ authorized
      → again.payload ≡ first.payload
      → All (λ r. r.now ≤ again.now) rs
      → (verify hmac_sha256 sha256 upper parse_utc_timestamp config
          (verify_all hmac_sha256 sha256 upper parse_utc_timestamp config
            (verify hmac_sha256 sha256 upper parse_utc_timestamp config b first).0
            rs)
          again).1
        ≢ authorized
  unfolding verify_step
  verify_once config b first rs again h same le h' =
      let (n, e, _, c, _, kept) = verify-authorized config b first h in
      let (n', e', _, c', k', _) = verify-authorized config _ again h' in
      let (_, u, v) = authenticate-nonce config first first.payload n e c in
      let (by, u', v') = authenticate-nonce config again again.payload n' e' c' in
      let one_nonce : n' ≡ n = some-injective n' n (sym u' ∙ ap nonce_of same ∙ u) in
      let one_expiry : e' ≡ e = some-injective e' e (sym v' ∙ ap (expiry_of config) same ∙ v) in
      let in_time : again.now ≤ e = rw one_expiry at by in
      let held =
        verify_all-retains rs config (verify_step config b first).0 n e again.now in_time le kept in
      record_nonce-stale _ n' e e' again.now in_time (rw one_nonce held) k'
