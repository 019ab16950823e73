-- ===== src/Host.antt =====
-- src/VM.cpp, the host program: it reads the bytecode, fills the buffers and runs the kernel.
pub mod Loop
pub mod Print
pub mod Stream
pub mod Packets
pub mod CodeStore
pub mod Setup
pub mod Check
pub mod UserData
pub mod Runs
pub mod Wrapper
pub mod Gprm
pub mod Main
