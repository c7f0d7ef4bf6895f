-- ===== src/Logger.antt =====
-- What pkg/logger does to a record before it is written: sampling and the masking of secrets.
pub mod Sampler
pub mod Sanitize
pub mod Secrets
