-- ===== src/Nonces/Entries.antt =====
-- The entries of a nonce store: what is live, and what a claim adds.
use e_slams.Prelude.{
  Bool, List, String, [], any, arith, leb, length, refl, str_eq, ℕ, ◌&&◌, ◌++◌, ◌||◌, ◌∷◌, ◌≡◌, ◌≤◌,
}
use e_slams.Nonces.{Entry, holds, live}

pub length-live : (now : ℕ) (es : List Entry) → length (live now es) ≤ length es
length-live now [] = omega arith
length-live now (e ∷ es) = let rest = length-live now es in ground arith

-- The nonce has an entry that lives at the time.
abbrev pub retained : String → ℕ → List Entry → Bool
retained nonce time es = any (λ e. str_eq e.nonce nonce && leb time e.expiry) es

pub holds-live :
    (nonce : String) (now : ℕ) (es : List Entry) → holds nonce (live now es) ≡ retained nonce now es
holds-live nonce now [] = refl
holds-live nonce now (e ∷ es) = let rest = holds-live nonce now es in ground arith

pub retained-live :
    (nonce : String) (time now : ℕ) (es : List Entry)
    → now ≤ time
    → retained nonce time (live now es) ≡ retained nonce time es
retained-live nonce time now [] le = refl
retained-live nonce time now (e ∷ es) le =
    let rest = retained-live nonce time now es le in ground arith

pub retained-append :
    (nonce : String) (time : ℕ) (es : List Entry) (x : Entry)
    → retained nonce time (es ++ x ∷ [])
      ≡ (retained nonce time es || (str_eq x.nonce nonce && leb time x.expiry))
retained-append nonce time [] x = ground arith
retained-append nonce time (e ∷ es) x = let rest = retained-append nonce time es x in ground arith

pub holds-append :
    (nonce : String) (es : List Entry) (x : Entry)
    → holds nonce (es ++ x ∷ []) ≡ (holds nonce es || str_eq x.nonce nonce)
holds-append nonce [] x = ground arith
holds-append nonce (e ∷ es) x = let rest = holds-append nonce es x in ground arith
