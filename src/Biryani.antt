-- ===== src/Biryani.antt =====
-- The simulation of ass4/Q2/main.c: chefs, containers (tables) and students.
pub mod Moves
pub mod Tables
pub mod Count
pub mod Last
pub mod Single
