-- ===== src/Extractor.antt =====
-- packages/api-extractor/src: the extractor of a package's public API.
pub mod Model
mod Filters
mod Samples
pub mod Render
pub mod Matching
pub mod Equivalence
pub mod Canonicalize
pub mod SemanticPaths
pub mod Substitutions
