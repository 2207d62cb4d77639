-- ===== src/Installer.antt =====
-- src/clausis/installer.py: which disk an installation may erase, and the confirmation in front of it.
pub mod Disks
pub mod Plan
pub mod Challenge
pub mod Selection
pub mod Binding
