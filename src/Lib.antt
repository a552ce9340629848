-- ===== src/Lib.antt =====
-- eSlams: a runner of matches between agents on game arenas, with the evidence that makes a match
-- count.
--
-- The parts and how they interact. An arena (src/eslams/arena.py) holds the rules of one game as
-- functions of an immutable state (src/eslams/state.py). The runner (src/eslams/runner.py) asks the
-- agent of the seat to move for an action, handles what goes wrong by the failure policies of its
-- configuration, lets the arena apply the action, and records a trace, a replay and a verdict on
-- whether the run counts. A hosted runner answers only signed requests
-- (src/eslams/contracts/security.py) whose nonce is new, which a nonce store
-- (src/eslams/nonce_store.py) decides. It keeps its games in sessions
-- (src/eslams/runner_session.py), which concurrent calls lease. An agent's callback runs in a thread
-- with a deadline (src/eslams/deadlines.py). Evaluations are planned ahead as shards of cases
-- (src/eslams/planning.py), and a plan is checked before its results are put together.
--
-- Which file models which part:
--   Json, Json/Equality       JSON actions and their comparison, `_same_json_action` of arena.py
--   Arena, Arena/Legality     the state, `legal_actions_for`, `is_legal`, `failure_action`
--   Arena/Contract            `Rules` are the methods of an arena that play needs; `IsArena` is what
--                             the runner relies on, which each arena proves of its rules; `Offers`
--                             ties the legal actions to a game's own rule of the position
--   Arenas/Mancala and below  src/eslams/arenas/mancala.py, Kalah; `move` is the sowing loop of
--                             `apply_action` with its capture, `settle` what follows it
--   Arenas/TicTacToe          src/eslams/arenas/tic_tac_toe.py
--   Arenas/ConnectFour        src/eslams/arenas/connect_four.py; `drop` is the loop over the rows
--   Arenas/Stones and below   what Gomoku and Hex share: stones on a square board
--   Arenas/Gomoku, Arenas/Hex src/eslams/arenas/gomoku.py and hex.py: their tests for a win
--   Arenas/Othello            src/eslams/arenas/othello.py; `walk` is the loop of `_flips`, `placed`
--                             the board of a placement
--   Runner/State, Calls       `RunConfig` and the variables of `Runner.run`; `_call_agent`
--   Runner                    the four phases of the body of the match loop
--   Runner/Loop               the loop and the truncation after it; below it, what each run keeps
--   Nonces and below          `MemoryNonceStore` and `SQLiteNonceStore`
--   Requests and below        `sign_runner_request` and `verify_signed_runner_request`; the digests,
--                             `str.upper` and the parsing of a timestamp are parameters
--   Sessions and below        `RunnerSessionStore`; a call is its atomic steps between its waits,
--                             `event` takes one of them, `run` any interleaving;
--                             Sessions/Refinement has the map that a store stands for; a lock is
--                             held from the step that enters it to the one that leaves it, as
--                             `with` has it
--   Plans and below           `_shards`, `EvalPlanEnvelope.to_dict`; Plans/Validation has
--                             `validate_plan` on JSON values, Plans/Building has `official_plan`,
--                             `battlefield_plan` and `public_match_plan`
--   Deadlines and below       `call_in_thread`, as steps under its lock, and `action_deadline`
--   Prelude and below         helpers: tests, lists, loops with a break, integers
--
-- How code corresponds to definitions. Exceptions that a caller catches are `none` or a result of
-- the model's own. A `break` is a `halt`, a `continue` or the end of the body a `go_on`. Dictionaries
-- by seat are `BySeat`. Python integers are natural numbers where they cannot be negative. A score
-- is an exact fraction in place of a float, and an instant the rank of a float among the finite
-- numbers, or for a request the microseconds since the epoch. The hash of a state is a parameter. An
-- agent is a function from the state to what its call comes to, which stands for any agent, since
-- no two calls of a run see the same turn.
--
-- Bounds and fuel. The sowing loop recurs on the stones in hand. The match loop takes the turn limit
-- as fuel, which is enough because every turn that goes on adds one to the turn. The search of Hex
-- has fuel for every cell of the board and one edge more, since no cell is queued twice after those
-- of the edge. The count of stones in Gomoku has the side of the board, which no line is longer than,
-- and the loop of Othello the side of its board, which no walk is longer than. The shards of a plan,
-- the leases of a session store and the threads of a pool are lists without a bound of the model's
-- own.
--
-- Not modelled: what a run only records (provider receipts and statuses, agent traffic, latencies,
-- the score summary, the artifact), tables of more than two seats, the other arenas, agents and
-- providers, what a call of a session returns, receipts of a thread, files, sockets and the command
-- line; the score that a forfeit writes into `final_validation`, a key of none of these arenas; a
-- thread that begins though its start raises; and times beyond 2 ^ 53, which the shared nonce store
-- rounds. Receipts steer nothing in the loop; the rest is I/O, data, or code of its own that no
-- modelled part calls.
pub mod Prelude
pub mod Json
pub mod Arena
pub mod Arenas
pub mod Runner
pub mod Nonces
pub mod Requests
pub mod Sessions
pub mod Plans
pub mod Deadlines
