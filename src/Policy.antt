-- ===== src/Policy.antt =====
-- The policy rules of murano/policy/congress_rules.py.
pub mod Closure
pub mod Rules
