-- ===== src/Policy.antt =====
-- src/clausis/policy.py: the allowlist of actions, the validators and the confirmation policy.
pub mod Validators
pub mod Rule
pub mod Table
pub mod Evaluate
