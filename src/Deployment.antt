-- ===== src/Deployment.antt =====
-- The entry of the public demo.
pub mod PublicHttp
pub mod Windows
pub mod RateLimits
