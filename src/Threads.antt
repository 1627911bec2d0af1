-- ===== src/Threads.antt =====
-- PA-Three/Threads-and-Processes: the exercises on threads and processes.
pub mod Summation
pub mod Counter
pub mod Forked
pub mod Creation
pub mod Filling
mod Tests
