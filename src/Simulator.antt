-- ===== src/Simulator.antt =====
-- PA4/PA4: the paging simulator, its programs and its pagers.
pub mod Types
pub mod Programs
pub mod Branching
pub mod Search
pub mod Process
pub mod Paging
pub mod Queue
pub mod Control
pub mod Pointers
pub mod Invariant
pub mod ApiTest
pub mod Options
pub mod Pagers
pub mod Main
mod Tests
