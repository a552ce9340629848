-- ===== src/Nonces/Sharing.antt =====
-- `SQLiteNonceStore` answers as `MemoryNonceStore` does (src/eslams/nonce_store.py).
use e_slams.Prelude.{
  Bool-cases, List, String, [], ap, ap₂, arith, false, inl, inr, leb, length, refl, sym, true, ℕ,
  ◌∙◌, ◌∷◌, ◌≡◌, ◌≤◌,
}
use e_slams.Nonces.{
  Answer, Claim, Entry, Instant, Store, admit, at_time, claim, holds, live, not_finite,
  sqlite_claim, transact, validate_claim,
}
use e_slams.Nonces.Claims.{Sum-cases, validate_claim_lem}

abbrev pub answers : Store → List Claim → List Answer
answers s [] = []
answers s (c ∷ cs) = let r = claim s c.nonce c.expires c.now in r.1 ∷ answers r.0 cs

-- The database is reachable throughout.
abbrev pub sqlite_answers : Store → List Claim → List Answer
sqlite_answers s [] = []
sqlite_answers s (c ∷ cs) =
    let r = sqlite_claim true s c.nonce c.expires c.now in r.1 ∷ sqlite_answers r.0 cs

-- The clock does not go back.
abbrev pub InOrder : ℕ → List Claim → Type 0
InOrder time [] = Unit
InOrder time (c ∷ cs) = elim c.now [
  | at_time now ↦ (time ≤ now) × InOrder now cs
  | not_finite ↦ InOrder time cs
]

live-live : (time now : ℕ) (es : List Entry) → time ≤ now → live now (live time es) ≡ live now es
live-live time now [] le = refl
live-live time now (e ∷ es) le =
    let rest = live-live time now es le in
    elim (Bool-cases (leb time e.expiry)) [
      | inl p ↦ elim (Bool-cases (leb now e.expiry)) [
        | inl q ↦ rw (p, q, rest) refl
        | inr q ↦ rw (p, q, rest) refl
      ]
      | inr p ↦ let q : leb now e.expiry ≡ false = ground arith in rw (p, q, rest) refl
    ]

-- The stores agree on what is live at the time.
record SameLive (time : ℕ) (m d : Store) : Type 0 where
  same_max : m.max_entries ≡ d.max_entries
  same_live : live time m.entries ≡ live time d.entries

later-SameLive : (time now : ℕ) (m d : Store) → time ≤ now → SameLive time m d → SameLive now m d
later-SameLive time now m d le r = record {
  same_max = r.same_max;
  same_live =
      sym (live-live time now m.entries le)
      ∙ ap (live now) r.same_live
      ∙ live-live time now d.entries le;
}

admit-SameLive :
    (m d : Store) (nonce : String) (expires now : ℕ)
    → SameLive now m d
    → ((admit m nonce expires now).1 ≡ (transact d nonce expires now).1)
      × SameLive now (admit m nonce expires now).0 (transact d nonce expires now).0
unfolding admit transact
admit-SameLive m d nonce expires now r =
    let same = r.same_live in
    let max = r.same_max in
    elim (Bool-cases (holds nonce (live now d.entries))) [
      | inl h ↦ rw (same, h) (refl, record { same_max = max; same_live = refl })
      | inr h ↦ elim (Bool-cases (leb d.max_entries (length (live now d.entries)))) [
        | inl q ↦
            rw (same, h, max, q)
              (
                refl,
                record { same_max = refl; same_live = live-live now now d.entries (omega arith) },
              )
        | inr q ↦ rw (same, h, max, q) (refl, record { same_max = refl; same_live = refl })
      ]
    ]

claim-SameLive :
    (m d : Store) (nonce : String) (expires : Instant) (now : ℕ)
    → SameLive now m d
    → ((claim m nonce expires (at_time now)).1
        ≡ (sqlite_claim true d nonce expires (at_time now)).1)
      × SameLive now
          (claim m nonce expires (at_time now)).0
          (sqlite_claim true d nonce expires (at_time now)).0
unfolding claim sqlite_claim
claim-SameLive m d nonce expires now r =
    elim (Sum-cases (validate_claim nonce expires (at_time now))) [
      | inl (error, q) ↦ rw q (refl, r)
      | inr ((e, n), q) ↦
          let (_, same) = validate_claim_lem nonce expires (at_time now) (e, n) q in
          let w : now ≡ n = cc in rw q (rw w (admit-SameLive m d nonce e n (rw w at r)))
    ]

claim-timeless :
    (time : ℕ) (m d : Store) (nonce : String) (expires : Instant)
    → SameLive time m d
    → ((claim m nonce expires not_finite).1 ≡ (sqlite_claim true d nonce expires not_finite).1)
      × SameLive time
          (claim m nonce expires not_finite).0
          (sqlite_claim true d nonce expires not_finite).0
unfolding claim sqlite_claim
claim-timeless time m d nonce expires r =
    elim (Sum-cases (validate_claim nonce expires not_finite)) [
      | inl (error, q) ↦ rw q (refl, r)
      | inr ((e, n), q) ↦
          absurd (let (_, same) = validate_claim_lem nonce expires not_finite (e, n) q in cc)
    ]

-- One claim, before claims that are answered the same.
step-SameLive :
    (cs : List Claim) (nonce : String) (expires now : Instant) (time : ℕ) (m d : Store)
    → ((later : ℕ) (m' d' : Store)
        → SameLive later m' d'
        → InOrder later cs
        → sqlite_answers d' cs ≡ answers m' cs)
    → SameLive time m d
    → InOrder time (record { nonce = nonce; expires = expires; now = now } ∷ cs)
    → sqlite_answers d (record { nonce = nonce; expires = expires; now = now } ∷ cs)
      ≡ answers m (record { nonce = nonce; expires = expires; now = now } ∷ cs)
step-SameLive cs nonce expires (at_time now) time m d rest r (le, o) =
    let (a, k) = claim-SameLive m d nonce expires now (later-SameLive time now m d le r) in
    ap₂ ◌∷◌ (sym a) (rest now _ _ k o)
step-SameLive cs nonce expires not_finite time m d rest r o =
    let (a, k) = claim-timeless time m d nonce expires r in ap₂ ◌∷◌ (sym a) (rest time _ _ k o)

answers-SameLive :
    (cs : List Claim) (time : ℕ) (m d : Store)
    → SameLive time m d
    → InOrder time cs
    → sqlite_answers d cs ≡ answers m cs
answers-SameLive [] time m d r o = refl
answers-SameLive (c ∷ cs) time m d r o =
    step-SameLive cs c.nonce c.expires c.now time m d
      (λ later m' d' k q. answers-SameLive cs later m' d' k q) r o

-- As long as the database can be reached and the clock does not go back, the shared store gives
-- every history of claims the answers of the store in memory, from the same entries.
pub sqlite_answers-answers :
    (time : ℕ) (s : Store) (cs : List Claim) → InOrder time cs → sqlite_answers s cs ≡ answers s cs
sqlite_answers-answers time s cs o =
    answers-SameLive cs time s s (record { same_max = refl; same_live = refl }) o
