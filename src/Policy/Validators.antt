-- ===== src/Policy/Validators.antt =====
-- The argument validators of src/clausis/policy.py. Each comes back with `ok tt` or the exception
-- that the code raises, its checks in the code's order.
pub mod Parameters
pub mod Targets
