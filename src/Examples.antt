-- ===== src/Examples.antt =====
-- Small inputs: tests of the definitions, and the theorems at concrete values.
mod Data
mod Policies
mod Hosts
mod Routes
mod Bits
mod Allocator
mod Bindings
mod Drains
mod Reconciles
mod Clouds
mod Groups
mod Debounces
mod Headers
mod Applies
mod Domains
mod Ingresses
mod Engines
