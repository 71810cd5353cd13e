-- ===== src/Memory.antt =====
-- source/system/memory: the allocator of physical sectors and the map of virtual ones.
pub mod Physical
pub mod Virtual
