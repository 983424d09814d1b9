-- ===== src/Tests.antt =====
-- The theorems at concrete inputs, and runs of the code.
mod QueueTests
mod EdgeTests
mod DigraphTests
mod DijkstraTests
mod CacheTests
mod ControllerTests
mod ReceiveTests
mod SerialTests
mod FlowTableTests
mod TreatTests
mod SendTests
mod WindowTests
