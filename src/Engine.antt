-- ===== src/Engine.antt =====
-- internal/engine: the in-memory Aho-Corasick automata.
pub mod Outputs
pub mod MapNode
pub mod Bloom
pub mod MapEngine
pub mod MemEfficient
pub mod FindSet
pub mod Handle
pub mod Coder
pub mod Stream
