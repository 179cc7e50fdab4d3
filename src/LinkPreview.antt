-- ===== src/LinkPreview.antt =====
-- internal/linkpreview: the cache of fetch results and the address policy.
pub mod Address
pub mod Cache
