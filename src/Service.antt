-- ===== src/Service.antt =====
-- The services: src/service.
pub mod Tuning
