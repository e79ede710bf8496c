-- ===== src/Tests.antt =====
-- Runs of the model on the inputs of the unit tests of rylr998-core and rylr998-std, and each theorem
-- at an input where its hypotheses hold.
pub mod Vectors
pub mod Codec
pub mod Drivers
pub mod Polls
pub mod Radios
pub mod Calls
pub mod Tasks
pub mod Tools
pub mod Uarts
pub mod Smokes
