-- ===== src/Search.antt =====
-- The breadth-first searches that the services write out by hand, once, over the functions in which
-- they differ: the neighbours of a node, the nodes that may be entered, how the queue is extended.
pub mod Walks
pub mod Flood
pub mod Sweep
pub mod Queues
