-- ===== src/Tests.antt =====
-- Tests: each property applied to small queues, tables, symbols and programs.
pub mod Queues
pub mod Tables
pub mod Symbols
pub mod Programs
pub mod Launches
pub mod Matrices
pub mod Units
pub mod Objects
pub mod Reports
pub mod Loops
pub mod Orders
pub mod Networks
pub mod Run
