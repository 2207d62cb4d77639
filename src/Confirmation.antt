-- ===== src/Confirmation.antt =====
-- src/clausis/confirmation.py: PIN and challenge phrase in front of every capability.
pub mod Summary
pub mod Phrase
pub mod Pin
pub mod Confirmer
pub mod Attempts
pub mod Approval
pub mod Residue
