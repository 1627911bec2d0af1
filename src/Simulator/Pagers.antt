-- ===== src/Simulator/Pagers.antt =====
-- PA4/PA4/pager-basic.c, pager-lru.c and pager-predict.c: the three pagers, and what they keep.
pub mod Basic
pub mod Lru
pub mod Predict
pub mod Entries
pub mod Runs
