-- ===== src/Snapshot.antt =====
-- dataguard/: the snapshots of the files that hold the data.
pub mod Diff
