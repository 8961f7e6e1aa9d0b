-- ===== src/WebUtils.antt =====
-- webutils: the web tools, of which the policy on URLs is modelled.
pub mod Policy
