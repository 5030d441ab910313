-- ===== src/Domain.antt =====
-- engine/internal/domain: the vocabulary that every other part of the engine shares.
pub mod Incident
pub mod Package
pub mod Publisher
pub mod Ioc
pub mod Component
pub mod Event
