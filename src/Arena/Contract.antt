-- ===== src/Arena/Contract.antt =====
-- The contract between an arena and what drives it (`Arena` in src/eslams/arena.py): the abstract
-- methods as a record, the states that legal play reaches, and the laws that each arena fills.
use e_slams.Prelude.{
  Bool, Option, false, if◌then◌else◌, leb, none, some, true, ℕ, ◌+◌, ◌↔◌, ◌≡◌, ◌≢◌,
}
use e_slams.Prelude.Int.{ℤ}
use e_slams.Json.{Json}
use e_slams.Arena.{ArenaState, Player, failure_action, is_legal}

-- `initial_state`, `apply_action` (`none` where it raises ValueError), `max_turns`, and whether an
-- action waits under `pending_action_key` to be revealed, which it does in sealed arenas alone.
pub record Rules (Public Extra : Type 0) : Type 0 where
  pub initial_state : ℤ → ArenaState Public Extra
  pub apply_action : ArenaState Public Extra → Player → Json → Option (ArenaState Public Extra)
  pub max_turns : ℕ
  pub is_pending : ArenaState Public Extra → Bool

module _ {Public Extra : Type 0} (rules : Rules Public Extra) where
  -- `action_reveal_turn`
  abbrev pub action_reveal_turn : ArenaState Public Extra → ℕ
  action_reveal_turn after = if rules.is_pending after then after.turn + 1 else after.turn

  -- `public_action`
  abbrev pub public_action : ArenaState Public Extra → Option Json → Option Json
  public_action after action = if leb (action_reveal_turn after) after.turn then action else none

pub data Reachable {Public Extra : Type 0} (rules : Rules Public Extra)
    : ArenaState Public Extra → Type 0 where
  opened : (seed : ℤ) → Reachable rules (rules.initial_state seed)
  played :
      {s t : ArenaState Public Extra}
      → Reachable rules s
      → (player : Player) (action : Json) → rules.apply_action s player action ≡ some t
      → Reachable rules t

-- What the runner relies on.
pub record IsArena {Public Extra : Type 0} (rules : Rules Public Extra) : Type 0 where
  pub first_turn : (seed : ℤ) → (rules.initial_state seed).turn ≡ 0
  pub next_turn :
      (s t : ArenaState Public Extra) (player : Player) (action : Json)
      → rules.apply_action s player action ≡ some t
      → t.turn ≡ s.turn + 1
  -- Every action that is listed for a seat applies, and nothing else does.
  pub legal_applies :
      (s : ArenaState Public Extra) (player : Player) (action : Json)
      → Reachable rules s
      → is_legal s player action ≡ true
      → rules.apply_action s player action ≢ none
  pub applies_legal :
      (s t : ArenaState Public Extra) (player : Player) (action : Json)
      → Reachable rules s
      → rules.apply_action s player action ≡ some t
      → (is_legal s player action ≡ true) × (player ≡ s.active_player) × (s.terminal ≡ false)
  -- Play can go on from every state that is not terminal, by `failure_action` at the least.
  pub can_move :
      (s : ArenaState Public Extra)
      → Reachable rules s
      → s.terminal ≡ false
      → (action : Json) × (failure_action s s.active_player ≡ some action)
        × (is_legal s s.active_player action ≡ true)

-- What is legal, told apart from what is listed: an action is legal for the seat that moves, in a
-- state that is not over, and where the game's own rule of the position and the seat allows it.
pub record Offers {Public Extra : Type 0} (rules : Rules Public Extra)
    (Playable : Public → Player → Json → Type 0) : Type 0 where
  pub legal_iff :
      (s : ArenaState Public Extra) (player : Player) (action : Json)
      → Reachable rules s
      → (is_legal s player action ≡ true) ↔ (
          (player ≡ s.active_player) × (s.terminal ≡ false) × Playable s.public_state player action)
