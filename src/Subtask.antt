-- ===== src/Subtask.antt =====
-- Subtask records and the table of them that each compute unit has (include/SharedTypes.h and
-- kernels/VM.cl).
pub mod Record
pub mod Table
