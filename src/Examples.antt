-- ===== src/Examples.antt =====
-- Tests: the theorems at concrete inputs, and the inputs that they share.
pub mod Data
mod Log
mod Live
mod Pipeline
mod Entries
mod Keys
mod Server
pub mod Tables
mod Sql
mod Requests
mod Program
