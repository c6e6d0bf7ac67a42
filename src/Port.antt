-- ===== src/Port.antt =====
-- The mbed port, port/mbed: the buffers, the two queues, the client and its worker thread.
pub mod Buffers
pub mod Os
pub mod Output
pub mod Writes
pub mod Slots
pub mod Inputs
pub mod Client
pub mod Handlers
pub mod Jobs
pub mod Thread
pub mod Sound
pub mod Ends
pub mod Answers
pub mod Pings
pub mod Calls
pub mod Queue
