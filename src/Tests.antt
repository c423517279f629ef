-- ===== src/Tests.antt =====
-- Runs of the modelled code at concrete inputs, and the theorems at inputs that meet their hypotheses.
mod Avl
mod Median
mod Pages
mod Pool
mod Cache
mod Recovery
mod Tracker
mod Query
mod Store
mod Expression
mod Hash
mod Blocks
mod Bplus
mod Exercises
mod Lru
