-- ===== src/Examples.antt =====
-- The theorems applied to concrete rings, page tables, servers and command lines.
mod Rings
mod Tables
mod Nodes
mod Parsers
mod Threads
mod Ends
mod Runs
mod Benchmark
mod Startup
