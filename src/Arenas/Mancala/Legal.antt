-- ===== src/Arenas/Mancala/Legal.antt =====
-- Legal pits: what the legal list of a state holds, and when `apply_action` succeeds.
use e_slams.Arena.Contract.{Reachable, opened, played}
use e_slams.Json.{Json}
use e_slams.Prelude.{
  &&_split, Bool-cases, List, Option, [], arith, false, get_or, guarded_some, inl, inr, is_some,
  length, ltb, none, refl, some, suc, sum, sym, true, zero, ℕ, ◌&&◌, ◌+◌, ◌<◌, ◌==◌, ◌∙◌, ◌∷◌, ◌≡◌,
}
use e_slams.Arena.Legality.{IsSeated, legal_listed, listed}
use e_slams.Arenas.Mancala.Conservation.{IsBoard, move_lem, settle_lem, stones}
use e_slams.Arenas.Mancala.{
  Board, State, apply_action, final_outcome, initial_state, make_state, move, rules, scores, settle,
  side_empty, stocked, sweep,
}
use e_slams.Prelude.Int.{ℤ}
use e_slams.Arena.{BySeat, Outcome, Player, as_index, at_seat, is_int, is_legal, player_1, player_2}

-- A listed index stands for a pit of the row that holds stones.
stocked_sound :
    (k n : ℕ) (row : List ℕ)
    → listed n (stocked k row) ≡ true
    → (i : ℕ) × (n ≡ k + i) × (i < length row) × (0 < get_or row i 0)
unfolding stocked
stocked_sound k n [] h = ground arith
stocked_sound k n (x ∷ xs) h = elim (Bool-cases ((n == k) && ltb 0 x)) [
  | inl e ↦ (0, ground arith, omega arith, ground arith)
  | inr e ↦
      let (i, q, l, m) = stocked_sound (k + 1) n xs (ground arith) in
      (suc i, omega arith, omega arith, m)
]

stocked_complete :
    (k i : ℕ) (row : List ℕ) → 0 < get_or row i 0 → listed (k + i) (stocked k row) ≡ true
unfolding stocked
stocked_complete k i [] h = absurd (omega arith)
stocked_complete k zero (x ∷ xs) h = ground arith
stocked_complete k (suc i) (x ∷ xs) h =
    let e : k + suc i ≡ k + 1 + i = omega arith in
    rw e (ground (arith, stocked_complete (k + 1) i xs h))

-- The shape of the states that `_state` makes.
pub record IsMade (s : State) : Type 0 where
  pub seated : IsSeated s (stocked 0 (at_seat s.public_state.pits s.active_player))
  pub over : s.terminal ≡ is_some s.outcome
  pub scored : s.scores ≡ scores s.outcome

make_state-IsMade :
    (b : Board) (turn : ℕ) (active : Player) (seed : ℤ) (given : Option (Outcome (BySeat ℕ)))
    → IsMade (make_state b turn active seed given)
unfolding make_state
make_state-IsMade b turn active seed given = record { seated = refl; over = refl; scored = refl }

settle-IsMade : (s : State) (r : Player × Board) → IsMade (settle s r)
unfolding settle
settle-IsMade s (active, b) = elim (Bool-cases (side_empty b)) [
  | inl e ↦ rw e (
      make_state-IsMade (sweep b) (s.turn + 1) active s.seed
        (some (final_outcome (sweep b).stores "side_empty")))
  | inr e ↦ rw e (make_state-IsMade b (s.turn + 1) active s.seed none)
]

-- What holds in every state that play reaches.
pub record IsSound (s : State) : Type 0 where
  pub made : IsMade s
  pub board : IsBoard s.public_state
  pub total : stones s.public_state ≡ 48
  -- While the game is on, both sides have stones.
  pub stocked_sides :
      s.terminal ≡ false
      → (0 < sum s.public_state.pits.first) × (0 < sum s.public_state.pits.second)

initial_state-IsSound : (seed : ℤ) → IsSound (initial_state seed)
unfolding initial_state make_state
initial_state-IsSound seed = record {
  made = record { seated = refl; over = refl; scored = refl };
  board = omega arith;
  total = refl;
  stocked_sides = λ _. omega arith;
}

length-row : (b : Board) (p : Player) → IsBoard b → length (at_seat b.pits p) ≡ 6
length-row b player_1 w = w.first_row
length-row b player_2 w = w.second_row

-- A legal pit is one of the mover's six, and it holds stones.
pub legal_pit :
    (s : State) (player : Player) (action : Json)
    → IsSound s
    → is_legal s player action ≡ true
    → (player ≡ s.active_player)
      × (s.terminal ≡ false)
      × (as_index action < 6)
      × (0 < get_or (at_seat s.public_state.pits player) (as_index action) 0)
      × (is_int action ≡ true)
legal_pit s player action sound legal =
    let (q, t, a, l, z) = legal_listed s _ player action sound.made.seated legal in
    let (i, e, m, n) = stocked_sound 0 (as_index action) _ l in
    let e' : as_index action ≡ i = omega arith in
    let k = length-row s.public_state s.active_player sound.board in
    (q, t, omega (arith, k), rw (q, e') n, z)

-- While the game is on, the seat that moves has a pit with stones.
pub stocked_cons :
    (k : ℕ) (row : List ℕ) → 0 < sum row → (n : ℕ) × (rest : List ℕ) × (stocked k row ≡ n ∷ rest)
unfolding stocked
stocked_cons k [] h = absurd (omega arith)
stocked_cons k (zero ∷ xs) h = stocked_cons (k + 1) xs (omega arith)
stocked_cons k (suc x ∷ xs) h = (k, stocked (k + 1) xs, ground arith)

pub apply_action-next :
    (s t : State) (player : Player) (action : Json)
    → apply_action s player action ≡ some t
    → (is_legal s player action ≡ true)
      × (t ≡ settle s (move s.public_state player (as_index action)))
unfolding apply_action
apply_action-next s t player action h =
    let (legal, e) = guarded_some _ _ h in ((&&_split (is_int action) _ legal).1, sym e)

settle_stocked :
    (s : State) (active : Player) (b : Board)
    → (settle s (active, b)).terminal ≡ false
    → (0 < sum (settle s (active, b)).public_state.pits.first)
      × (0 < sum (settle s (active, b)).public_state.pits.second)
unfolding settle make_state
settle_stocked s active b h = ground arith

settle-IsSound :
    (s : State) (r : Player × Board) → IsBoard r.1 → stones r.1 ≡ 48 → IsSound (settle s r)
settle-IsSound s (active, b) w total = record {
  made = settle-IsMade s (active, b);
  board = (settle_lem s active b w).0;
  total = (settle_lem s active b w).1 ∙ total;
  stocked_sides = settle_stocked s active b;
}

apply_action-IsSound :
    (s t : State) (player : Player) (action : Json)
    → IsSound s
    → apply_action s player action ≡ some t
    → IsSound t
apply_action-IsSound s t player action sound h =
    let (legal, e) = apply_action-next s t player action h in
    let (_, _, i, _, _) = legal_pit s player action sound legal in
    let (w, total) = move_lem s.public_state player (as_index action) sound.board i in
    rw e (settle-IsSound s (move s.public_state player (as_index action)) w (total ∙ sound.total))

-- In every state that legal play reaches, the 48 stones are all in the pits and stores, each side
-- has six pits, and while the game is on both sides have stones.
pub mancala-IsSound : (s : State) → Reachable rules s → IsSound s
unfolding rules
mancala-IsSound s (opened seed) = initial_state-IsSound seed
mancala-IsSound t (played {s = s} r player action h) =
    apply_action-IsSound s t player action (mancala-IsSound s r) h
