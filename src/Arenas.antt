-- ===== src/Arenas.antt =====
-- The arenas of src/eslams/arenas, a module for each.
pub mod Mancala
pub mod TicTacToe
pub mod ConnectFour
pub mod Stones
pub mod Gomoku
pub mod Hex
pub mod Othello
