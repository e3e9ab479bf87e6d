-- ===== src/Tests.antt =====
-- Tests and worked examples: the functions run on four cores in two packages.
mod Bench
mod Topology
mod L3
mod L2
mod Classes
mod Reset
mod Machine
mod Api
mod Rctl
mod Os
mod Mon
mod MonApi
mod Info
mod Init
mod Discover
