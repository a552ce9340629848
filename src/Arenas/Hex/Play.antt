-- ===== src/Arenas/Hex/Play.antt =====
-- Hex keeps the contract of an arena, and a move wins where it joins the sides.
use e_slams.Prelude.{
  Bool, Bool-cases, Option, false, if◌then◌else◌, inl, inr, none, refl, some, subst, sym, true, ℕ,
  ◌↔◌, ◌≡◌, ◌≢◌,
}
use e_slams.Arena.{Outcome, Player}
use e_slams.Arena.Contract.{IsArena, Offers}
use e_slams.Arena.Legality.{IsNumber}
use e_slams.Arenas.Stones.{Board, State, make_state, place, rules, settle}
use e_slams.Arenas.Stones.Free.{IsEmptyCell}
use e_slams.Arenas.Stones.Contract.{apply_action-next, stones-IsArena, stones-Offers}
use e_slams.Arenas.Hex.{apply_hex_action, hex_initial_state, hex_rules, hex_wins, size}
use e_slams.Arenas.Hex.Search.{Joined}
use e_slams.Arenas.Hex.Complete.{connected_lem}
use e_slams.Json.{Json}

-- Hex is an arena: the first turn is 0 and each move adds one, exactly the legal actions apply, and
-- a game that is not over can go on. In the states that legal play reaches, the legal actions are
-- the numbers, row by row, of the empty cells of the board and no others, for the seat that moves,
-- until the game is over.
pub hex-IsArena : IsArena hex_rules × Offers hex_rules (IsNumber (IsEmptyCell size))
unfolding hex_rules hex_initial_state apply_hex_action rules
hex-IsArena = (
  stones-IsArena size hex_wins "connected_sides" "max_turns",
  stones-Offers size hex_wins "connected_sides" "max_turns",
)

-- The winner of an outcome.
abbrev pub winner_of : Option (Outcome Unit) → Option Player
winner_of none = none
winner_of (some o) = o.winner

hex_wins_iff :
    (board : Board) (row col : ℕ) (stone : Player)
    → (hex_wins board row col stone ≡ true) ↔ Joined board stone
hex_wins_iff board row col stone = elim (connected_lem board stone) [
  | inl (e, joined) ↦ (λ _. joined, λ _. rw e refl)
  | inr (e, apart) ↦ (λ h. absurd (let bad = rw e at h in cc), λ joined. absurd (apart joined))
]

drawn :
    (over : Bool) (p : Player)
    → winner_of
        (if over then some (record { winner = none; reason = "max_turns"; extra = none }) else none)
      ≢ some p
drawn true p h = cc
drawn false p h = cc

abbrev Decides : State → Player → Type 0
Decides t player = (winner_of t.outcome ≡ some player) ↔ Joined t.public_state player

settle-Decides :
    (s : State) (player : Player) (row col : ℕ)
    → Decides (settle size hex_wins "connected_sides" "max_turns" s player row col) player
unfolding settle make_state
settle-Decides s player row col =
    let board = place s.public_state row col player in
    let wins = hex_wins_iff board row col player in
    elim (Bool-cases (hex_wins board row col player)) [
      | inl e ↦ (λ _. wins.0 e, λ _. rw e refl)
      | inr e ↦ (
        λ h. absurd (drawn _ player (rw e at h)),
        λ joined. absurd (let bad = wins.1 joined in cc),
      )
    ]

-- Whenever a move of Hex applies, the outcome of the next state names the seat that moved as the
-- winner exactly when a chain of its stones joins its two sides of the next state's board.
pub hex_winner-Joined :
    (s t : State) (player : Player) (action : Json)
    → apply_hex_action s player action ≡ some t
    → (winner_of t.outcome ≡ some player) ↔ Joined t.public_state player
unfolding apply_hex_action
hex_winner-Joined s t player action h =
    let (_, e) =
      apply_action-next size hex_wins "connected_sides" "max_turns" s t player action h in
    subst (λ u. Decides u player) (sym e) (settle-Decides s player _ _)
