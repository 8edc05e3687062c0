-- ===== src/Web.antt =====
-- apps/web/src/lib: what the web application decides by itself.
pub mod Terminal
pub mod Roadmap
pub mod Client
