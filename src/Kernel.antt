-- ===== src/Kernel.antt =====
-- The crate `kernel`: the network interface that drives the crate `net`, the page frames, the random
-- numbers, the timers, the executor, the streams that feed its tasks, the mutex, the screen, the
-- terminal, configuration space and the interrupt routes.
pub mod Host
pub mod Runs
pub mod Interface
pub mod Receive
pub mod Pages
pub mod Random
pub mod Timers
pub mod Screen
pub mod Terminal
pub mod Pci
pub mod Executor
pub mod Locks
pub mod Streams
pub mod Entropy
pub mod Routes
mod Examples
mod Scenarios
mod Traces
