-- ===== src/Host/Gprm/Methods.antt =====
-- The private methods of src/OclGPRM.cc. They repeat the functions of src/VM.cpp with their names.
use ocl_gprm.Base.{ℕ, Option, List}
use ocl_gprm.Subtask.Table.{SubtaskTable}
use ocl_gprm.Kernel.{State}
use ocl_gprm.Host.Stream
use ocl_gprm.Host.Packets
use ocl_gprm.Host.Setup

abbrev pub toggle_state : State → State
toggle_state state = Setup.toggle_state state

abbrev pub create_subt : SubtaskTable → SubtaskTable
create_subt table = Setup.create_subt table

abbrev pub create_subtask : SubtaskTable → SubtaskTable
create_subtask table = Setup.create_subtask table

abbrev pub read_bytecode : Option (List ℕ) → Option (List ℕ)
read_bytecode bytecode_file = Stream.read_bytecode bytecode_file

abbrev pub words2packets : List ℕ → Option (List (List ℕ))
words2packets bytecode_words = Packets.words2packets bytecode_words
