-- ===== src/Examples.antt =====
-- Tests of the model on concrete input, and the theorems applied to concrete input.
mod Codecs
mod InstanceCodec
mod Data
mod Witnesses
mod Records
mod Controllers
mod Boundaries
mod Answers
