-- ===== src/Tests.antt =====
-- Tests of the definitions, and the theorems at concrete inputs.
mod Capture
mod Scanning
mod Parsing
mod Strings
mod Opening
mod Spacings
mod Sums
mod Counting
mod Nodes
mod Censuses
mod Comparing
mod Discovering
mod Samples
mod Options
mod Bundles
mod Summaries
