-- ===== src/Api.antt =====
-- apps/api: the rate limiting of its callers and the pagination of its lists.
pub mod RateLimit
pub mod Pagination
