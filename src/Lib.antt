-- ===== src/Lib.antt =====
-- OclGPRM, a virtual machine for parallel reduction on OpenCL devices, and its host program.
--
-- A program is bytecode: for each piece of code a symbol that names a service (K_S), followed by
-- the symbols of its arguments, which are values (K_B) or references to other code (K_R). The
-- compute units evaluate it by sending packets. A reference packet asks a unit to run the code at
-- an address; the unit takes a subtask record from its table, stores the arguments that are given,
-- and asks for the others by reference packets of its own. A data packet brings an argument back;
-- when none is absent any more, the unit runs the service and returns the result to whoever asked.
-- Each pair of units has a queue. A launch of the kernel either reads and parses the packets of
-- all queues, where new packets go to a second buffer of transfer queues, or moves the packets of
-- the transfer queues into the queues; the host alternates between the two until nothing is left.
--
-- Where the parts stand:
--   Base (Tests, Words, Bits, Buffers, Lists, Results): comparisons as Booleans, C's unsigned words
--     with their wrap-around and bit fields, buffers as functions from indices, lengths, and what
--     holds of a result if there is one
--   Macros: include/SharedMacros.h and include/SystemConfiguration.h
--   Packet: src/Packet.cpp, and the packet functions of kernels/VM.cl
--   Symbol: the symbol functions of kernels/VM.cl
--   Queue: the queue functions of kernels/VM.cl on a buffer (q_read, q_write, q_size, ...), with
--     Queue.Transfer for q_transfer and computation_complete; Queue.Spec is the abstract queue, and
--     Queue.Carries is about buffers all of whose packets have a property
--   Subtask: SubtaskRecord and SubtaskTable of include/SharedTypes.h with their functions in
--     kernels/VM.cl
--   Service: service_compute, matmultKernel, report and the argument functions of kernels/VM.cl;
--     Service.Matrix.Product and Service.Matrix.Launch are about matmultKernel on all work-items,
--     Service.Matrix.Sum, Unit and Identity about the other matrix services, Service.Report about
--     report
--   Kernel: parse_pkt and vm of kernels/VM.cl, Kernel.Parse for parse_subtask, Kernel.Launch for vm
--     on all work-items of a launch; Kernel.Sound for the packets and tables with which every answer
--     has a unit to go to, from parse_pkt up to a launch; Kernel.Network is the abstract machine that
--     vm stands for, on lists of packets and without rings, fuel and loops over queues, and its
--     children relate the two
--   Host: readBytecode, words2Packets, the code store, createSubtask, the queue buffers,
--     toggleState and, in Host.Main, the order of all this in main of src/VM.cpp; Host.Runs for the
--     NRUNS runs, Host.Loop for the buffers on the device, the work-items of a launch and the devices
--     that the loop of launches can reach (Host.Loop.Bisimulation: beside the abstract machine;
--     Host.Loop.Lossless: where the packets are), Host.Check for the reference product and the
--     comparison (SELECT == 2), Host.Print for the numbers printed for SELECT == 4 and 5;
--     Host.UserData: populateData of src/UserData.cpp; Host.Wrapper: main of
--     src/VM_with_OclWrapper.cc; Host.Gprm: the class OclGPRM of src/OclGPRM.cc
--   Tests: every property at a concrete input, and in Tests.Run whole runs of small programs from the
--     bytes of their files on
-- Functions keep their names, in lower case, and the order of their arguments. One that writes to a
-- buffer takes the buffer and returns it; one that returns false and a result by a pointer returns
-- an Option.
--
-- Bounds and fuel. The numbers are natural numbers; 8-, 16-, 32- and 64-bit words wrap where the
-- code lets them. A loop over a queue runs on fuel of one more than the MAX_BYTECODE_SZ packets that
-- a queue holds. The loop over a file runs on two more rounds than the file has bytes; every round
-- but the last two takes a byte. `none` stands for a loop that does not end: in parse_subtask the
-- wait for a free record, which nothing else can end while a single work-item runs.
--
-- It also stands for what the code does not survive. The arrays of a subtask record have 31
-- elements, and the source has no test for that: `parse_subtask` on code with more arguments has
-- the result `none`. So has `prepare` where the size of a queue buffer does not fit an int, which
-- is from 8067 units on. The data buffer is a function on all indices: how far the addresses that a
-- program computes stay inside it is up to the program.
--
-- A launch of several work-items runs them one after the other, in any order: what they do at the
-- same time to shared memory is not modelled. In state READ there is a barrier behind each packet,
-- at which a work-item waits for all others of its group. The one that runs gets past it only if it
-- is the only one (`Kernel.barrier`), so that a READ launch by groups of several threads returns
-- only where no packet is waiting, and what is said of such groups is about WRITE launches. A
-- program is run from what `new` returns, which is arbitrary, except that where a property needs it
-- the records of a new table are assumed to name a unit or the host as where they return to: since
-- return addresses come back multiplied by 256, a result can go to a record that no subtask has
-- been given. The OpenCL runtime and the OclWrapper library are a record of functions
-- (Host.Runs.Ocl) on whatever is on the device.
--
-- Not modelled: how the host finds a device and builds the kernel; how it reads the number of units
-- from its arguments; the wording of what is printed, what is printed for debugging, and timing;
-- the allocation of buffers on the device and on the host, and its failure; the draft
-- kernels/dispatch_reference.cc, which needs functions that nothing declares. The private
-- methods of OclGPRM and the functions beside main in src/VM_with_OclWrapper.cc repeat those of
-- src/VM.cpp, and Host.Gprm.Methods and Host.Wrapper.Functions say so.
pub mod Base
pub mod Host
pub mod Kernel
pub mod Macros
pub mod Packet
pub mod Queue
pub mod Service
pub mod Subtask
pub mod Symbol
pub mod Tests
pub mod WorkItem
