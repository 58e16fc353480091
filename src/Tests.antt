-- ===== src/Tests.antt =====
-- Runs of the program on concrete inputs.
mod SampleJson
mod Filters
mod Sizes
mod Ids
mod Instrumented
mod Logged
mod Traced
mod Lines
mod Compiled
