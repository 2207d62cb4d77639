-- ===== src/Models.antt =====
-- src/clausis/models.py: the typed messages that cross the trust boundaries.
pub mod Value
pub mod Request
pub mod Parse
