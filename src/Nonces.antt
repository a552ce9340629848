-- ===== src/Nonces.antt =====
-- The stores of request nonces, src/eslams/nonce_store.py. A time is its rank in the order of the
-- finite numbers; a lock or a transaction makes a claim one step.
use Prim.Native.String.{count}
use e_slams.Prelude.{
  Bool, List, Option, String, [], any, if◌then◌else◌, inl, inr, leb, length, ltb, none, some,
  str_eq, ℕ, ◌&&◌, ◌++◌, ◌∷◌, ◌⊎◌,
}
pub mod Entries
pub mod Capacity
pub mod Claims
pub mod Sharing
mod Examples

-- An argument `expires_at` or `now`; anything but a finite number is refused.
pub data Instant : Type 0 where
  at_time : ℕ → Instant
  not_finite : Instant

pub data NonceStoreError : Type 0 where
  invalid_identifier invalid_lifetime already_expired capacity_occupied unavailable :
      NonceStoreError

-- `claim` returns True or False, or it raises.
pub data Answer : Type 0 where
  fresh : Answer
  replay : Answer
  refused : NonceStoreError → Answer

pub record Entry : Type 0 where
  pub nonce : String
  pub expiry : ℕ

pub record Store : Type 0 where
  pub max_entries : ℕ
  pub entries : List Entry

-- `MemoryNonceStore(max_entries)`, and the checks of `SQLiteNonceStore(path, max_entries)`
unfoldable pub new_store : ℕ → Option Store
new_store max_entries =
    if ltb max_entries 1 then none else some (record { max_entries = max_entries; entries = [] })

-- `_validate_claim`: the times, once they are known to be finite and in order. `none` is a nonce
-- that is not a string.
checked_times : Instant → Instant → NonceStoreError ⊎ (ℕ × ℕ)
checked_times (at_time expires) (at_time now) =
    if ltb expires now then inl already_expired else inr (expires, now)
checked_times expires now = inl invalid_lifetime

pub validate_claim : String → Instant → Instant → NonceStoreError ⊎ (ℕ × ℕ)
unfolding checked_times
validate_claim nonce expires now =
    if leb 1 (count nonce) && leb (count nonce) 256
    then checked_times expires now
    else inl invalid_identifier

-- The entries that have not expired.
abbrev pub live : ℕ → List Entry → List Entry
live now [] = []
live now (e ∷ es) = if leb now e.expiry then e ∷ live now es else live now es

abbrev pub holds : String → List Entry → Bool
holds nonce es = any (λ e. str_eq e.nonce nonce) es

-- The body of `MemoryNonceStore.claim`, under the lock.
admit : Store → String → ℕ → ℕ → Store × Answer
admit s nonce expires now =
    let entries = live now s.entries in
    let pruned = record s { entries = entries } in
    if holds nonce entries
    then (pruned, replay)
    else if leb s.max_entries (length entries)
    then (pruned, refused capacity_occupied)
    else (record s { entries = entries ++ record { nonce = nonce; expiry = expires } ∷ [] }, fresh)

abbrev claim_checked : Store → String → NonceStoreError ⊎ (ℕ × ℕ) → Store × Answer
claim_checked s nonce (inl error) = (s, refused error)
claim_checked s nonce (inr (expires, now)) = admit s nonce expires now

-- `MemoryNonceStore.claim`
unfoldable pub claim : Store → String → Instant → Instant → Store × Answer
unfolding validate_claim admit
claim s nonce expires now = claim_checked s nonce (validate_claim nonce expires now)

-- The transaction of `SQLiteNonceStore.claim`: the capacity error rolls the deletion back.
transact : Store → String → ℕ → ℕ → Store × Answer
transact s nonce expires now =
    let rows = live now s.entries in
    if holds nonce rows
    then (record s { entries = rows }, replay)
    else if leb s.max_entries (length rows)
    then (s, refused capacity_occupied)
    else (record s { entries = rows ++ record { nonce = nonce; expiry = expires } ∷ [] }, fresh)

abbrev sqlite_checked : Bool → Store → String → NonceStoreError ⊎ (ℕ × ℕ) → Store × Answer
sqlite_checked reachable s nonce (inl error) = (s, refused error)
sqlite_checked reachable s nonce (inr (expires, now)) =
    if reachable then transact s nonce expires now else (s, refused unavailable)

-- `SQLiteNonceStore.claim`; `reachable` is false where sqlite3 raises an error.
pub sqlite_claim : Bool → Store → String → Instant → Instant → Store × Answer
unfolding validate_claim transact
sqlite_claim reachable s nonce expires now =
    sqlite_checked reachable s nonce (validate_claim nonce expires now)

-- A claim as the caller makes it, and a history of claims.
pub record Claim : Type 0 where
  pub nonce : String
  pub expires : Instant
  pub now : Instant

abbrev pub claim_all : Store → List Claim → Store
claim_all s [] = s
claim_all s (c ∷ cs) = claim_all (claim s c.nonce c.expires c.now).0 cs
