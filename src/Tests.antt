-- ===== src/Tests.antt =====
-- Concrete inputs of the components.
mod Versions
mod Policies
mod Findings
mod Collectors
mod Bundles
mod Payloads
