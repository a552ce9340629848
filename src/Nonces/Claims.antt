-- ===== src/Nonces/Claims.antt =====
-- A claim of `MemoryNonceStore` (src/eslams/nonce_store.py) and the claims after it.
use Prim.Native.String.{count}
use e_slams.Prelude.{
  All, Bool-cases, List, String, [], arith, eq_iff, false, inl, inr, leb, length, ltb, refl, sym,
  true, ℕ, ◌&&◌, ◌<◌, ◌∙◌, ◌∷◌, ◌≡◌, ◌≢◌, ◌≤◌, ◌⊎◌,
}
use e_slams.Nonces.{
  Claim, Entry, Instant, NonceStoreError, Store, admit, already_expired, at_time, capacity_occupied,
  checked_times, claim, claim_all, fresh, holds, invalid_identifier, live, not_finite, refused,
  replay, validate_claim,
}
use e_slams.Nonces.Entries.{holds-live, retained, retained-append, retained-live}
use e_slams.Arena.{other}

pub Sum-cases :
    (r : NonceStoreError ⊎ (ℕ × ℕ))
    → ((e : NonceStoreError) × (r ≡ inl e)) ⊎ ((t : ℕ × ℕ) × (r ≡ inr t))
Sum-cases (inl e) = inl (e, refl)
Sum-cases (inr t) = inr (t, refl)

-- The clock has not passed the time.
abbrev pub IsBy : ℕ → Instant → Type 0
IsBy time (at_time now) = now ≤ time
IsBy time not_finite = Unit

checked_times_lem :
    (expires now : Instant) (t : ℕ × ℕ)
    → checked_times expires now ≡ inr t
    → (expires ≡ at_time t.0) × (now ≡ at_time t.1)
unfolding checked_times
checked_times_lem (at_time e) (at_time n) t h = elim (Bool-cases (ltb e n)) [
  | inl q ↦ absurd (let k : inl already_expired ≡ inr t = rw q at h in cc)
  | inr q ↦
      let k : inr (e, n) ≡ inr t = rw q at h in let w : (e, n) ≡ t = cc in rw (← w) (refl, refl)
]
checked_times_lem not_finite now t h = absurd cc
checked_times_lem (at_time e) not_finite t h = absurd cc

-- The times that the checks let through are the arguments.
pub validate_claim_lem :
    (nonce : String) (expires now : Instant) (t : ℕ × ℕ)
    → validate_claim nonce expires now ≡ inr t
    → (expires ≡ at_time t.0) × (now ≡ at_time t.1)
unfolding validate_claim
validate_claim_lem nonce expires now t h =
    elim (Bool-cases (leb 1 (count nonce) && leb (count nonce) 256)) [
      | inl q ↦ checked_times_lem expires now t (rw q at h)
      | inr q ↦ absurd (let k : inl invalid_identifier ≡ inr t = rw q at h in cc)
    ]

validated_by :
    (time : ℕ) (nonce : String) (expires now : Instant) (t : ℕ × ℕ)
    → IsBy time now
    → validate_claim nonce expires now ≡ inr t
    → t.1 ≤ time
validated_by time nonce expires now t by h =
    let (_, q) = validate_claim_lem nonce expires now t h in rw q at by

admit-retains :
    (s : Store) (nonce : String) (time : ℕ) (other : String) (expires now : ℕ)
    → now ≤ time
    → retained nonce time s.entries ≡ true
    → retained nonce time (admit s other expires now).0.entries ≡ true
unfolding admit
admit-retains s nonce time other expires now le r =
    let kept = retained-live nonce time now s.entries le in
    let added =
      retained-append nonce time (live now s.entries)
        (record { nonce = other; expiry = expires }) in
    elim (Bool-cases (holds other (live now s.entries))) [
      | inl h ↦ rw h (kept ∙ r)
      | inr h ↦ elim (Bool-cases (leb s.max_entries (length (live now s.entries)))) [
        | inl q ↦ rw (h, q) (kept ∙ r)
        | inr q ↦ rw (h, q) (added ∙ rw (kept, r) refl)
      ]
    ]

pub claim-retains :
    (s : Store) (nonce : String) (time : ℕ) (c : Claim)
    → IsBy time c.now
    → retained nonce time s.entries ≡ true
    → retained nonce time (claim s c.nonce c.expires c.now).0.entries ≡ true
unfolding claim
claim-retains s nonce time c by r = elim (Sum-cases (validate_claim c.nonce c.expires c.now)) [
  | inl (error, q) ↦ rw q r
  | inr ((expires, now), q) ↦ rw q (
      admit-retains s nonce time c.nonce expires now
        (validated_by time c.nonce c.expires c.now (expires, now) by q) r)
]

claim_all-retains :
    (s : Store) (nonce : String) (time : ℕ) (cs : List Claim)
    → All (λ c. IsBy time c.now) cs
    → retained nonce time s.entries ≡ true
    → retained nonce time (claim_all s cs).entries ≡ true
claim_all-retains s nonce time [] by r = r
claim_all-retains s nonce time (c ∷ cs) (by, rest) r =
    claim_all-retains (claim s c.nonce c.expires c.now).0 nonce time cs rest
      (claim-retains s nonce time c by r)

pub retained-earlier :
    (nonce : String) (time now : ℕ) (es : List Entry)
    → now ≤ time
    → retained nonce time es ≡ true
    → retained nonce now es ≡ true
retained-earlier nonce time now [] le r = r
retained-earlier nonce time now (e ∷ es) le r =
    let rest = retained-earlier nonce time now es le in ground arith

admit-replay :
    (s : Store) (nonce : String) (time expires now : ℕ)
    → now ≤ time
    → retained nonce time s.entries ≡ true
    → (admit s nonce expires now).1 ≡ replay
unfolding admit
admit-replay s nonce time expires now le r =
    rw (holds-live nonce now s.entries, retained-earlier nonce time now s.entries le r) refl

pub claim-stale :
    (s : Store) (nonce : String) (time : ℕ) (expires now : Instant)
    → IsBy time now
    → retained nonce time s.entries ≡ true
    → (claim s nonce expires now).1 ≢ fresh
unfolding claim
claim-stale s nonce time expires now by r f = elim (Sum-cases (validate_claim nonce expires now)) [
  | inl (error, q) ↦ let k : refused error ≡ fresh = rw q at f in cc
  | inr ((e, n), q) ↦
      let k : (admit s nonce e n).1 ≡ fresh = rw q at f in
      let again =
        admit-replay s nonce time e n (validated_by time nonce expires now (e, n) by q) r in
      let bad : replay ≡ fresh = sym again ∙ k in cc
]

admit-fresh :
    (s : Store) (nonce : String) (expires now : ℕ)
    → (admit s nonce expires now).1 ≡ fresh
    → retained nonce expires (admit s nonce expires now).0.entries ≡ true
unfolding admit
admit-fresh s nonce expires now f =
    let added =
      retained-append nonce expires (live now s.entries)
        (record { nonce = nonce; expiry = expires }) in
    elim (Bool-cases (holds nonce (live now s.entries))) [
      | inl h ↦ let k : replay ≡ fresh = rw h at f in cc
      | inr h ↦ elim (Bool-cases (leb s.max_entries (length (live now s.entries)))) [
        | inl q ↦ let k : refused capacity_occupied ≡ fresh = rw (h, q) at f in cc
        | inr q ↦
            let same = (eq_iff nonce nonce).1 refl in
            let alive : leb expires expires ≡ true = ground arith in
            rw (h, q) (added ∙ rw (same, alive) (ground arith))
      ]
    ]

pub claim-fresh :
    (s : Store) (nonce : String) (expires now : ℕ)
    → (claim s nonce (at_time expires) (at_time now)).1 ≡ fresh
    → retained nonce expires (claim s nonce (at_time expires) (at_time now)).0.entries ≡ true
unfolding claim
claim-fresh s nonce expires now f =
    elim (Sum-cases (validate_claim nonce (at_time expires) (at_time now))) [
      | inl (error, q) ↦ let k : refused error ≡ fresh = rw q at f in cc
      | inr ((e, n), q) ↦
          let k : (admit s nonce e n).1 ≡ fresh = rw q at f in
          let (same, _) = validate_claim_lem nonce (at_time expires) (at_time now) (e, n) q in
          let w : expires ≡ e = cc in let done = admit-fresh s nonce e n k in rw (q, w) done
    ]

-- Once a nonce is admitted until a time, no claim of it is admitted again until the clock has passed
-- that time, whatever was claimed in between, as long as the clock did not pass it.
pub claim_once :
    (s : Store) (nonce : String) (expires now : ℕ)
    → (claim s nonce (at_time expires) (at_time now)).1 ≡ fresh
    → (cs : List Claim) → All (λ c. IsBy expires c.now) cs
    → (again later : Instant) → IsBy expires later
    → (claim (claim_all (claim s nonce (at_time expires) (at_time now)).0 cs) nonce again later).1
      ≢ fresh
claim_once s nonce expires now f cs by again later by' =
    let first = (claim s nonce (at_time expires) (at_time now)).0 in
    claim-stale (claim_all first cs) nonce expires again later by'
      (claim_all-retains first nonce expires cs by (claim-fresh s nonce expires now f))

-- A well-formed claim of a nonce that is not held is admitted while there is room.
pub claim-admits :
    (s : Store) (nonce : String) (expires now : ℕ)
    → 1 ≤ count nonce
    → count nonce ≤ 256
    → now ≤ expires
    → holds nonce (live now s.entries) ≡ false
    → length (live now s.entries) < s.max_entries
    → (claim s nonce (at_time expires) (at_time now)).1 ≡ fresh
unfolding claim validate_claim checked_times admit
claim-admits s nonce expires now some_text short alive unheld room =
    let long_enough : leb 1 (count nonce) ≡ true = ground arith in
    let short_enough : leb (count nonce) 256 ≡ true = ground arith in
    let unexpired : ltb expires now ≡ false = ground arith in
    let below : leb s.max_entries (length (live now s.entries)) ≡ false = ground arith in
    rw (long_enough, short_enough, unexpired, unheld, below) refl
