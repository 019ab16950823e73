-- ===== src/Host/Wrapper/Functions.antt =====
-- The functions beside `main` in src/VM_with_OclWrapper.cc. They repeat those of src/VM.cpp with their
-- names.
use ocl_gprm.Base.{ℕ, Bool, Option, List}
use ocl_gprm.Subtask.Table.{SubtaskTable}
use ocl_gprm.Kernel.{State}
use ocl_gprm.Host.Stream
use ocl_gprm.Host.Packets
use ocl_gprm.Host.Setup
use ocl_gprm.Host.Main

abbrev pub toggle_state : State → State
toggle_state state = Setup.toggle_state state

abbrev pub create_subt : SubtaskTable → SubtaskTable
create_subt table = Setup.create_subt table

abbrev pub create_subtask : SubtaskTable → SubtaskTable
create_subtask table = Setup.create_subtask table

abbrev pub read_bytecode : Option (List ℕ) → Option (List ℕ)
read_bytecode bytecode_file = Stream.read_bytecode bytecode_file

abbrev pub words2packets : List ℕ → Option (List (List ℕ))
words2packets bytecode_words = Packets.words2packets bytecode_words

abbrev pub validate_arguments : ℕ → Bool
validate_arguments argc = Main.validate_arguments argc
