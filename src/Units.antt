-- ===== src/Units.antt =====
-- include/dataitem.h: the two measures that limits and results are kept in.
pub mod Time
pub mod Memory
