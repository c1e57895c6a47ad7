-- ===== src/Regression.antt =====
-- src/backend_other.rs with the feature `nss-regression`: the objects that are read from a directory of
-- files. Regression.Manifest parses its manifest, Regression.Objects makes the objects, and
-- Regression.Generated is the script that writes the manifest,
-- tests/nss-regression/generate_chains.py. Regression.Blocks, Regression.RoundTrip and
-- Regression.Served relate them.
pub mod Manifest
pub mod Objects
pub mod Generated
pub mod Blocks
pub mod RoundTrip
pub mod Served
