-- ===== src/Samples.antt =====
-- A small network on which the theorems are applied: a gateway 1, a core router 2, an OLT 3, a
-- splitter 4, an ONT 5, and a router 6 that is forced down. The tests run the code on it.
pub mod Network
pub mod LinkTests
pub mod StatusTests
mod ForwardingTests
mod AddressTests
mod EvaluationTests
mod TrafficTests
mod PassiveTests
pub mod Graphs
mod SubscriberTests
mod DependencyTests
mod EventTests
