-- ===== src/Darwin.antt =====
-- desk/adapter_darwin.go: the adapter for macOS. CoreBluetooth and its binding are outside: what they
-- answer and when their delegates call back is given by schedules and arguments.
pub mod Connecting
pub mod Scanning
pub mod Power
pub mod Signals
