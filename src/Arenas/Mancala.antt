-- ===== src/Arenas/Mancala.antt =====
-- Kalah: src/eslams/arenas/mancala.py.
pub mod Conservation
pub mod Sowing
pub mod Legal
pub mod Contract
mod Examples
use e_slams.Prelude.{
  Bool, List, Option, String, [], false, get_or, if◌then◌else◌, is_some, leb, ltb, map, none, not,
  replicate, set, some, suc, sum, true, zero, ℕ, ◌&&◌, ◌+◌, ◌-◌, ◌==◌, ◌||◌, ◌∷◌,
}
use e_slams.Json.{Json}
use e_slams.Arena.{
  ArenaState, BySeat, Outcome, Player, Score, as_index, at_seat, is_int, is_legal, nat_action,
  nought, only_for, other, player_1, player_2, put_seat, same_player, winner_scores,
}
use e_slams.Arena.Contract.{Rules}
use e_slams.Prelude.Int.{ℤ}

abbrev pub pits_per_side : ℕ
pits_per_side = 6

abbrev pub starting_stones : ℕ
starting_stones = 4

abbrev pub max_turns : ℕ
max_turns = 200

-- public_state: {"pits": pits, "stores": stores}
pub record Board : Type 0 where
  pub pits : BySeat (List ℕ)
  pub stores : BySeat ℕ

pub data Slot : Type 0 where
  pit : ℕ → Slot
  store : Slot

-- A position (owner, slot).
pub record Position : Type 0 where
  pub owner : Player
  pub slot : Slot

abbrev at_slot : Player → Slot → Position
at_slot owner slot = record { owner = owner; slot = slot }

-- `_next_position`; `active` is the seat that sows.
next_slot : Player → Slot → Player → Position
next_slot owner store active = at_slot (other owner) (pit 0)
next_slot owner (pit i) active =
    if ltb i (pits_per_side - 1)
    then at_slot owner (pit (i + 1))
    else if same_player owner active
    then at_slot owner store
    else at_slot (other owner) (pit 0)

unfoldable pub next_position : Position → Player → Position
unfolding next_slot
next_position position active = next_slot position.owner position.slot active

-- One stone into a slot: `stores[owner] += 1` or `pits[owner][slot] += 1`.
drop_in : Player → Slot → Board → Board
drop_in owner store b = record b { stores = put_seat b.stores owner (at_seat b.stores owner + 1) }
drop_in owner (pit i) b =
    let row = at_seat b.pits owner in
    record b { pits = put_seat b.pits owner (set row i (get_or row i 0 + 1)) }

-- `while stones:`
unfoldable pub sow : ℕ → Player → Position → Board → Position × Board
unfolding drop_in next_position
sow zero active position b = (position, b)
sow (suc stones) active position b =
    let next = next_position position active in
    sow stones active next (drop_in next.owner next.slot b)

-- The capture, where the last stone fell into an empty pit of the mover's own.
capture_at : Player → Slot → Board → Board
capture_at player store b = b
capture_at player (pit i) b =
    let captured = get_or (at_seat b.pits (other player)) (pits_per_side - 1 - i) 0 in
    if get_or (at_seat b.pits player) i 0 == 1 && not (captured == 0)
    then record {
      pits =
          put_seat
            (put_seat b.pits (other player)
              (set (at_seat b.pits (other player)) (pits_per_side - 1 - i) 0))
            player (set (at_seat b.pits player) i 0);
      stores = put_seat b.stores player (at_seat b.stores player + (captured + 1));
    }
    else b

abbrev is_store : Slot → Bool
is_store store = true
is_store (pit i) = false

-- The seat that moves next, and the board after a capture.
finish_sowing : Player → Position × Board → Player × Board
unfolding capture_at
finish_sowing player (position, b) =
    if same_player position.owner player && is_store position.slot
    then (player, b)
    else if same_player position.owner player
    then (other player, capture_at player position.slot b)
    else (other player, b)

-- `_outcome`: its reason, where a side has no stones.
abbrev side_empty : Board → Bool
side_empty b = sum b.pits.first == 0 || sum b.pits.second == 0

-- The two seats bank what stands in their pits.
sweep : Board → Board
sweep b = record {
  pits = record { first = replicate pits_per_side 0; second = replicate pits_per_side 0 };
  stores = record {
    first = b.stores.first + sum b.pits.first;
    second = b.stores.second + sum b.pits.second;
  };
}

abbrev leader : BySeat ℕ → Option Player
leader stores =
    if ltb stores.second stores.first
    then some player_1
    else if ltb stores.first stores.second
    then some player_2
    else none

-- `_final_outcome`; "stores" is the extra field.
unfoldable pub final_outcome : BySeat ℕ → String → Outcome (BySeat ℕ)
final_outcome stores reason = record {
  winner = leader stores;
  reason = reason;
  extra = some stores;
}

-- `_scores`: the share of the banked stones, where an outcome has "stores" and they are not nil.
share : Option Player → Option (BySeat ℕ) → BySeat Score
unfolding winner_scores
share winner none = winner_scores winner
share winner (some stores) =
    let total = stores.first + stores.second in
    if ltb 0 total
    then record {
      first = record { num = stores.first; den = total };
      second = record { num = stores.second; den = total };
    }
    else winner_scores winner

unfoldable pub scores : Option (Outcome (BySeat ℕ)) → BySeat Score
unfolding share
scores none = record { first = nought; second = nought }
scores (some o) = share o.winner o.extra

-- `[index for index, stones in enumerate(pits) if stones > 0]`
unfoldable pub stocked : ℕ → List ℕ → List ℕ
stocked i [] = []
stocked i (n ∷ ns) = let rest = stocked (i + 1) ns in if ltb 0 n then i ∷ rest else rest

abbrev pub State : Type 0
State = ArenaState Board (BySeat ℕ)

-- The turn limit of `_state`.
close : Board → ℕ → Option (Outcome (BySeat ℕ)) → Option (Outcome (BySeat ℕ))
unfolding final_outcome
close b turn none = if leb max_turns turn then some (final_outcome b.stores "max_turns") else none
close b turn (some o) = some o

-- `_state`
unfoldable pub make_state : Board → ℕ → Player → ℤ → Option (Outcome (BySeat ℕ)) → State
unfolding scores stocked close
make_state b turn active seed given =
    let outcome = close b turn given in
    record {
      turn = turn;
      active_player = active;
      public_state = b;
      legal_actions_by_player =
          only_for active
            (if is_some outcome then [] else map nat_action (stocked 0 (at_seat b.pits active)));
      scores = scores outcome;
      terminal = is_some outcome;
      outcome = outcome;
      seed = seed;
      forfeited = none;
    }

abbrev pub opening : Board
opening = record {
  pits = record {
    first = replicate pits_per_side starting_stones;
    second = replicate pits_per_side starting_stones;
  };
  stores = record { first = 0; second = 0 };
}

unfoldable pub initial_state : ℤ → State
unfolding make_state
initial_state seed = make_state opening 0 player_1 seed none

-- `pits[player_id][action] = 0`
lift_pit : Board → Player → ℕ → Board
lift_pit b player action = record b {
  pits = put_seat b.pits player (set (at_seat b.pits player) action 0);
}

-- The move itself: lift the stones of a pit, sow them, capture.
unfoldable pub move : Board → Player → ℕ → Player × Board
unfolding sow finish_sowing lift_pit
move b player action = finish_sowing player (
    sow (get_or (at_seat b.pits player) action 0) player (at_slot player (pit action))
      (lift_pit b player action))

-- The end of `apply_action`: the sweep, where a side is empty, and the next state.
unfoldable pub settle : State → Player × Board → State
unfolding sweep final_outcome make_state
settle s (active, b) =
    if side_empty b
    then make_state (sweep b) (s.turn + 1) active s.seed
        (some (final_outcome (sweep b).stores "side_empty"))
    else make_state b (s.turn + 1) active s.seed none

-- `apply_action`; `none` where it raises ValueError.
unfoldable pub apply_action : State → Player → Json → Option State
apply_action s player action =
    if is_int action && is_legal s player action
    then some (settle s (move s.public_state player (as_index action)))
    else none

unfoldable pub rules : Rules Board (BySeat ℕ)
rules = record {
  initial_state = initial_state;
  apply_action = apply_action;
  max_turns = max_turns;
  is_pending = λ _. false;
}
