-- ===== src/Tests.antt =====
-- Runs on concrete inputs, by the part of the program that they exercise.
mod Layout
mod Payout
mod LockRuns
mod Messages
mod Session
mod Connect
mod Toy
mod PoolRuns
mod Requests
mod ServerRuns
mod LoopRuns
mod AnswerRuns
mod SetupRuns
mod ApiRuns
mod CommandRuns
