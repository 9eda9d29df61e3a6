-- ===== src/Version.antt =====
-- internal/analyzer/version: versions, their order, and version ranges.
pub mod Semver
pub mod Strict
pub mod Pep440
pub mod Range
pub mod Osv
pub mod Match
