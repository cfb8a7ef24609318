-- ===== src/Barrier.antt =====
-- stdlib/barrier.hpp: `barrier` and `flex_barrier`.
pub mod Run
pub mod Safety
pub mod Overtaken
pub mod Flex
