-- ===== src/Tests.antt =====
-- Tests, and each theorem at an input that meets its hypotheses.
mod Base
mod Manager
mod Parsing
mod Proxy
mod Threads
mod Windows
mod Macos
mod Cleanup
mod Regression
mod Entry
mod OnWindows
mod Provider
