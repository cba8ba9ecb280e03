-- ===== src/Presentation.antt =====
-- presentation: the HTTP side.
pub mod Validation
pub mod Controllers
pub mod Calls
