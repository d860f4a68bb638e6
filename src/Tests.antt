-- ===== src/Tests.antt =====
-- Runs of the modelled code, and its theorems at concrete inputs.
mod Access
mod Borrowing
mod Calls
mod Can
mod Cluster
mod Folders
mod Fs
mod Http
mod Life
mod Names
mod Permission
