-- ===== src/Tags.antt =====
-- internal/router/tags.go: the tag selector of a request.
pub mod Defs
pub mod Laws
