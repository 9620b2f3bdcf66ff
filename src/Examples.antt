-- ===== src/Examples.antt =====
-- Concrete inputs for the theorems: a stream with one event, a store with two threads and their runs, and
-- the registries that hold them.
mod Streams
mod Stores
mod Registries
mod Runs
mod Producers
mod Admissions
mod Databases
mod Readings
