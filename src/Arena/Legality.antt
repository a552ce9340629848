-- ===== src/Arena/Legality.antt =====
-- `is_legal` at the arenas whose actions are numbers, and `failure_action`.
use e_slams.Prelude.{
  ==_iff, Bool, Bool-cases, List, Option, [], any, arith, false, if◌then◌else◌, inl, inr, map, none,
  refl, some, true, ||_split, ℕ, ◌++◌, ◌==◌, ◌||◌, ◌↔◌, ◌∷◌, ◌≡◌,
}
use e_slams.Prelude.Int.{int_eq_iff, pos}
use e_slams.Json.{Json, same_json_action}
use e_slams.Json.Equality.{IsPlain, same_json_action-eq}
use e_slams.Arena.{
  ArenaState, Player, ScoresSum, as_index, at_seat, failure_action, is_int, is_legal, is_resign,
  nat_action, only_for, player_1, player_2, winner_scores,
}

abbrev pub listed : ℕ → List ℕ → Bool
listed n l = any (λ m. n == m) l

nat_action-IsPlain : (n : ℕ) → IsPlain (nat_action n)
unfolding IsPlain
nat_action-IsPlain n = tt

nat_action_self : (n : ℕ) → same_json_action (nat_action n) (nat_action n) ≡ true
unfolding same_json_action
nat_action_self n = (int_eq_iff (pos n) (pos n)).1 refl

-- An action that a list of numbers admits is one of the numbers.
pub any-nat_action :
    (a : Json) (l : List ℕ)
    → any (λ c. same_json_action a c) (map nat_action l) ≡ true
    → (a ≡ nat_action (as_index a)) × (listed (as_index a) l ≡ true) × (is_int a ≡ true)
any-nat_action a [] h = ground arith
any-nat_action a (n ∷ l) h = elim (||_split (same_json_action a (nat_action n)) _ h) [
  | inl e ↦ let q = same_json_action-eq a (nat_action n) (nat_action-IsPlain n) e in ground arith
  | inr r ↦ let (q, m, i) = any-nat_action a l r in (q, ground arith, i)
]

-- A listed number is admitted.
pub nat_action-listed :
    (n : ℕ) (l : List ℕ)
    → listed n l ≡ true
    → any (λ c. same_json_action (nat_action n) c) (map nat_action l) ≡ true
nat_action-listed n [] h = ground arith
nat_action-listed n (m ∷ l) h = elim (Bool-cases (n == m)) [
  | inl e ↦ let e' = (==_iff n m).0 e in rw (← e') (ground (arith, nat_action_self n))
  | inr e ↦ ground (arith, nat_action-listed n l)
]

seated_any :
    (p active : Player) (over : Bool) (cells : List ℕ) (a : Json)
    → any
        (λ c. same_json_action a c)
        (at_seat (only_for active (if over then [] else map nat_action cells)) p)
      ≡ true
    → (p ≡ active)
      × (over ≡ false)
      × (any (λ c. same_json_action a c) (map nat_action cells) ≡ true)
seated_any player_1 player_1 false cells a h = (refl, refl, h)
seated_any player_2 player_2 false cells a h = (refl, refl, h)
seated_any player_1 player_1 true cells a h = ground arith
seated_any player_2 player_2 true cells a h = ground arith
seated_any player_1 player_2 over cells a h = ground arith
seated_any player_2 player_1 over cells a h = ground arith

pub only_for_self : (p : Player) (l : List Json) → at_seat (only_for p l) p ≡ l
only_for_self player_1 l = refl
only_for_self player_2 l = refl

no_resign : (cells : List ℕ) → any is_resign (map nat_action cells) ≡ false
unfolding is_resign
no_resign [] = refl
no_resign (n ∷ cells) = no_resign cells

-- An action that is a number which a rule of the position allows.
abbrev pub IsNumber : {Public : Type 0} → (Public → ℕ → Type 0) → Public → Player → Json → Type 0
IsNumber Free board player a = (n : ℕ) × (a ≡ nat_action n) × Free board n

pub listed-append : (n : ℕ) (xs ys : List ℕ) → listed n (xs ++ ys) ≡ (listed n xs || listed n ys)
listed-append n [] ys = refl
listed-append n (x ∷ xs) ys = let rest = listed-append n xs ys in ground arith

module _ {Public Extra : Type 0} where
  -- The legal actions of a state are numbers, for the seat that moves, until the end.
  abbrev pub IsSeated : ArenaState Public Extra → List ℕ → Type 0
  IsSeated s cells =
      s.legal_actions_by_player
      ≡ only_for s.active_player (if s.terminal then [] else map nat_action cells)

  -- A legal action is listed, for the seat that moves, in a state that is not over.
  pub legal_listed :
      (s : ArenaState Public Extra) (cells : List ℕ) (p : Player) (a : Json)
      → IsSeated s cells
      → is_legal s p a ≡ true
      → (p ≡ s.active_player)
        × (s.terminal ≡ false)
        × (a ≡ nat_action (as_index a))
        × (listed (as_index a) cells ≡ true)
        × (is_int a ≡ true)
  unfolding is_legal
  legal_listed s cells p a e h =
      let h' = rw e at h in
      let (q, t, m) = seated_any p s.active_player s.terminal cells a h' in
      let (x, y, z) = any-nat_action a cells m in (q, t, x, y, z)

  -- A listed action is legal.
  pub listed_legal :
      (s : ArenaState Public Extra) (cells : List ℕ) (n : ℕ)
      → IsSeated s cells
      → s.terminal ≡ false
      → listed n cells ≡ true
      → is_legal s s.active_player (nat_action n) ≡ true
  unfolding is_legal
  listed_legal s cells n e t h = rw (e, t) (rw only_for_self (nat_action-listed n cells h))

  -- The actions of a state are the numbers of its list, read by a rule that tells the same numbers.
  pub seated_iff :
      (Free : Public → ℕ → Type 0) (s : ArenaState Public Extra) (cells : List ℕ) (p : Player)
      (a : Json)
      → IsSeated s cells
      → ((n : ℕ) → (listed n cells ≡ true) ↔ Free s.public_state n)
      → (is_legal s p a ≡ true)
        ↔ ((p ≡ s.active_player) × (s.terminal ≡ false) × IsNumber Free s.public_state p a)
  seated_iff Free s cells p a e tells = (
    λ h.
        let (seat, going, x, found, _) = legal_listed s cells p a e h in
        (seat, going, (as_index a, x, (tells (as_index a)).0 found)),
    λ h.
        let (seat, going, (n, x, free)) = h in
        let legal = listed_legal s cells n e going ((tells n).1 free) in rw (seat, x) legal,
  )

  -- The fallback of a state that is not over is its first listed action.
  pub seated_failure :
      (s : ArenaState Public Extra) (n : ℕ) (cells : List ℕ)
      → IsSeated s (n ∷ cells)
      → s.terminal ≡ false
      → failure_action s s.active_player ≡ some (nat_action n)
  unfolding failure_action
  seated_failure s n cells e t = rw (e, t) (rw only_for_self (rw (no_resign cells)))

-- A win, a loss or a draw shares one point.
pub winner_scores-sum : (w : Option Player) → ScoresSum 1 (winner_scores w)
unfolding winner_scores
winner_scores-sum none = refl
winner_scores-sum (some player_1) = refl
winner_scores-sum (some player_2) = refl
