-- ===== src/Router.antt =====
-- src/clausis/router.py: from a transcript to a request.
pub mod Builder
pub mod Build
pub mod Commands
pub mod Route
mod Kind
pub mod Sound
