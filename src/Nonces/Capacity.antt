-- ===== src/Nonces/Capacity.antt =====
-- The capacity of `MemoryNonceStore` (src/eslams/nonce_store.py).
use e_slams.Prelude.{
  Bool-cases, List, String, [], arith, false, inl, inr, leb, length, length-append, refl,
  str_eq_sym, ℕ, ◌++◌, ◌∷◌, ◌≡◌, ◌≤◌, ◌⊎◌,
}
use e_slams.Nonces.{
  Claim, Entry, NonceStoreError, Store, admit, claim, claim_all, claim_checked, holds, live,
  validate_claim,
}
use e_slams.Nonces.Entries.{holds-append, length-live}

-- No nonce has two entries.
abbrev pub Distinct : List Entry → Type 0
Distinct [] = Unit
Distinct (e ∷ es) = (holds e.nonce es ≡ false) × Distinct es

live-unheld :
    (now : ℕ) (nonce : String) (es : List Entry)
    → holds nonce es ≡ false
    → holds nonce (live now es) ≡ false
live-unheld now nonce [] h = refl
live-unheld now nonce (e ∷ es) h = let rest = live-unheld now nonce es in ground arith

live-Distinct : (now : ℕ) (es : List Entry) → Distinct es → Distinct (live now es)
live-Distinct now [] d = tt
live-Distinct now (e ∷ es) (h, d) = elim (Bool-cases (leb now e.expiry)) [
  | inl q ↦ rw q (live-unheld now e.nonce es h, live-Distinct now es d)
  | inr q ↦ rw q (live-Distinct now es d)
]

Distinct-append :
    (es : List Entry) (x : Entry) → Distinct es → holds x.nonce es ≡ false → Distinct (es ++ x ∷ [])
Distinct-append [] x d h = (refl, tt)
Distinct-append (e ∷ es) x (k, d) h =
    let other = str_eq_sym e.nonce x.nonce in
    let step = holds-append e.nonce es x in (ground arith, Distinct-append es x d (ground arith))

pub record IsBounded (s : Store) : Type 0 where
  pub within : length s.entries ≤ s.max_entries
  pub distinct : Distinct s.entries

admit-IsBounded :
    (s : Store) (nonce : String) (expires now : ℕ)
    → IsBounded s
    → IsBounded (admit s nonce expires now).0
unfolding admit
admit-IsBounded s nonce expires now b =
    let shorter = length-live now s.entries in
    let within = b.within in
    let distinct = live-Distinct now s.entries b.distinct in
    elim (Bool-cases (holds nonce (live now s.entries))) [
      | inl h ↦ rw h (record { within = omega arith; distinct = distinct })
      | inr h ↦ elim (Bool-cases (leb s.max_entries (length (live now s.entries)))) [
        | inl q ↦ rw (h, q) (record { within = omega arith; distinct = distinct })
        | inr q ↦
            let longer =
              length-append (live now s.entries)
                (record { nonce = nonce; expiry = expires } ∷ []) in
            rw (h, q)
              (record {
                within = ground arith;
                distinct =
                    Distinct-append (live now s.entries)
                      (record { nonce = nonce; expiry = expires }) distinct h;
              })
      ]
    ]

claim_checked-IsBounded :
    (s : Store) (nonce : String) (times : NonceStoreError ⊎ (ℕ × ℕ))
    → IsBounded s
    → IsBounded (claim_checked s nonce times).0
claim_checked-IsBounded s nonce (inl error) b = b
claim_checked-IsBounded s nonce (inr (expires, now)) b = admit-IsBounded s nonce expires now b

-- Through every history of claims the store keeps at most one entry for a nonce, and no more
-- entries than its capacity.
pub claim_all-IsBounded : (s : Store) (cs : List Claim) → IsBounded s → IsBounded (claim_all s cs)
unfolding claim
claim_all-IsBounded s [] b = b
claim_all-IsBounded s (c ∷ cs) b =
    claim_all-IsBounded (claim s c.nonce c.expires c.now).0 cs
      (claim_checked-IsBounded s c.nonce (validate_claim c.nonce c.expires c.now) b)
