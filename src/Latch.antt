-- ===== src/Latch.antt =====
-- stdlib/latch.hpp: `latch`.
pub mod Run
pub mod Safety
