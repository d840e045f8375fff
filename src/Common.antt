-- ===== src/Common.antt =====
-- src/common: the parts that stand beside the services.
pub mod RateLimiter
pub mod ClientAddress
pub mod EnvInterpolation
