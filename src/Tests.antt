-- ===== src/Tests.antt =====
-- Runs of the modelled code on concrete data.
mod Machines
mod Maps
mod Rings
mod Caches
mod Arrays
mod Sets
mod Engine
mod Stores
mod Queries
mod Filters
mod Names
mod Pointers
mod Networks
mod Trees
