-- ===== src/Tests.antt =====
-- Tests of the definitions on concrete inputs, and the theorems at inputs that meet their
-- hypotheses, by component.
mod Data
mod Caching
mod Locking
mod Nodes
mod Tables
mod Streams
mod Links
mod Clusters
mod Programs
