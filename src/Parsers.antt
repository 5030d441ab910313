-- ===== src/Parsers.antt =====
-- engine/sbom: the parsers of lockfiles.
pub mod Lines
pub mod Gomod
pub mod Npm
