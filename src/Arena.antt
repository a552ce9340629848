-- ===== src/Arena.antt =====
-- src/eslams/arena.py and src/eslams/state.py, for the two-seat arenas: seats, outcomes, scores,
-- states, and the operations that every arena inherits.
pub mod Legality
pub mod Contract
use e_slams.Prelude.{
  Bool, List, Option, String, [], any, false, if◌then◌else◌, none, some, str_eq, true, ℕ, ◌*◌, ◌+◌,
  ◌≡◌,
}
use mathlib.Core.List.{head?}
use e_slams.Prelude.Int.{pos, ℤ}
use e_slams.Json.{Json, bool, int, same_json_action, str}

pub data Player : Type 0 where
  player_1 player_2 : Player

-- `_other`
abbrev pub other : Player → Player
other player_1 = player_2
other player_2 = player_1

abbrev pub same_player : Player → Player → Bool
same_player player_1 player_1 = true
same_player player_2 player_2 = true
same_player _ _ = false

-- A dict whose keys are the two seats.
pub record BySeat {ℓ} (A : Type ℓ) : Type ℓ where
  pub first : A
  pub second : A

module _ {ℓ} {A : Type ℓ} where
  abbrev pub at_seat : BySeat A → Player → A
  at_seat d player_1 = d.first
  at_seat d player_2 = d.second

  abbrev pub put_seat : BySeat A → Player → A → BySeat A
  put_seat d player_1 a = record d { first = a }
  put_seat d player_2 a = record d { second = a }

-- A score as an exact fraction: 1.0 is 1/1, 0.5 is 1/2, 0.0 is 0/1.
pub record Score : Type 0 where
  pub num : ℕ
  pub den : ℕ

abbrev pub one : Score
one = record { num = 1; den = 1 }

abbrev pub half : Score
half = record { num = 1; den = 2 }

abbrev pub nought : Score
nought = record { num = 0; den = 1 }

-- The two scores add up to the fraction `total / 1`.
abbrev pub ScoresSum : ℕ → BySeat Score → Type 0
ScoresSum total s =
    s.first.num * s.second.den + s.second.num * s.first.den ≡ total * (s.first.den * s.second.den)

-- {"winner": ..., "reason": ..., **extra}; an outcome that the runner makes has no extra part.
pub record Outcome (E : Type 0) : Type 0 where
  pub winner : Option Player
  pub reason : String
  pub extra : Option E

-- `_invalid_reason` of the runner: the seat, the reason and the markers; or the bare "run_truncated".
pub data InvalidReason : Type 0 where
  of_player : Player → String → List String → InvalidReason
  run_truncated : InvalidReason

-- What the runner lays over a state that a seat forfeits: the keys "terminal_reason" and "winner" of
-- the public state, "invalid_reason" of the outcome, and "forfeited_player" of the metadata.
pub record Forfeit : Type 0 where
  pub terminal_reason : String
  pub winner : Option Player
  pub invalid_reason : InvalidReason
  pub forfeited_player : Player

-- `ArenaState`. Its id, its hash and its rendering hints are functions of these fields.
pub record ArenaState (Public Extra : Type 0) : Type 0 where
  pub turn : ℕ
  pub active_player : Player
  pub public_state : Public
  pub legal_actions_by_player : BySeat (List Json)
  pub scores : BySeat Score
  pub terminal : Bool
  pub outcome : Option (Outcome Extra)
  pub seed : ℤ
  pub forfeited : Option Forfeit

-- `{player: (legal if player == active else []) for player in players}`
abbrev pub only_for : Player → List Json → BySeat (List Json)
only_for player_1 legal = record { first = legal; second = [] }
only_for player_2 legal = record { first = []; second = legal }

unfoldable pub winner_scores : Option Player → BySeat Score
winner_scores none = record { first = half; second = half }
winner_scores (some player_1) = record { first = one; second = nought }
winner_scores (some player_2) = record { first = nought; second = one }

-- `_scores` of the arenas with a winner, a loser and draws.
unfoldable pub win_scores : {E : Type 0} → Option (Outcome E) → BySeat Score
unfolding winner_scores
win_scores none = record { first = nought; second = nought }
win_scores (some o) = winner_scores o.winner

-- `"resign" in legal` compares by ==, under which only the text itself equals a text.
unfoldable pub is_resign : Json → Bool
is_resign (str s) = str_eq s "resign"
is_resign _ = false

-- An action that is a cell, a column or a pit.
abbrev pub nat_action : ℕ → Json
nat_action n = int (pos n)

-- isinstance(action, int), which a Python bool passes too.
abbrev pub is_int : Json → Bool
is_int (int i) = true
is_int (bool b) = true
is_int _ = false

-- The list index that a legal integer action stands for; it is not read at another action.
abbrev pub as_index : Json → ℕ
as_index (int (pos n)) = n
as_index _ = 0

module _ {Public Extra : Type 0} where
  unfoldable pub legal_actions_for : ArenaState Public Extra → Player → List Json
  legal_actions_for state player = at_seat state.legal_actions_by_player player

  unfoldable pub is_legal : ArenaState Public Extra → Player → Json → Bool
  unfolding legal_actions_for
  is_legal state player action =
      any (λ candidate. same_json_action action candidate) (legal_actions_for state player)

  -- "resign" when it is listed, else the first action, else nothing.
  unfoldable pub failure_action : ArenaState Public Extra → Player → Option Json
  unfolding legal_actions_for is_resign
  failure_action state player =
      let legal = legal_actions_for state player in
      if any is_resign legal then some (str "resign") else head? legal
