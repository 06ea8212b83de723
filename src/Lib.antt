-- ===== src/Lib.antt =====
-- A model of the BOOM core in C++: a RISC-V processor of one lane, written for synthesis, as functions
-- on its state, and what makes its parts correct.
--
-- The program. `boom_core_top` (src/boom_core_top.cpp) is an endless loop around `boom_core_step`
-- (src/boom_core_step.cpp). A round moves at most one message of each stream across the boundary and
-- runs one cycle. A cycle calls the modules in a fixed order on one `BoomCoreState`: the CSR counter,
-- the branch update, the load and store unit, the front end, decode, rename, the allocation in the
-- reorder buffer, issue, execute and commit. A module sees what the ones before it did in this cycle,
-- and of the ones after it what they did in the cycle before. The memories answer through streams.
--
-- The files.
--   Config          include/boom_config.hpp, the constants that code reads
--   Types           include/boom_types.hpp: the enumerations (Codes), the micro-operation (Uop), the
--                   entries (Entries) and the messages (Messages)
--   State           include/boom_state.hpp: one record for each struct, `…_init` for its constructor
--   Pipe            include/boom_interfaces.hpp: a stream is the list of what it holds
--   Csr, Branch     src/csr.cpp, src/branch.cpp
--   Frontend        src/frontend.cpp, `frontend_module`; Matching: requests and their responses
--   Decode          src/decode.cpp, `decode_module`: Uopc the codes, Fields the fields and immediates,
--                   Opcodes one function for each case of the switch; Immediates: what the formats
--                   define
--   Rename          src/rename.cpp, `rename_module`; FreeList: the free list and its tail
--   Issue           src/issue.cpp, `issue_module`; Waiting and Order: the queue of the operations that
--                   wait
--   Execute         src/execute.cpp, `execute_module`; Arithmetic, Immediate, Branches and Words set it
--                   beside the instruction set
--   Rob             src/boom_core_step.cpp, `rob_allocate` and `rob_commit_module`; Retire the way an
--                   entry leaves, Retire/Order its order, Retire/Progress when it must; Queue,
--                   Allocation and Validity: the buffer as a queue
--   Lsu             src/lsu.cpp, `lsu_module`: Value the value of a load, Enqueue the queues, Issue the
--                   choice of a load, RoundTrip a load from request to response
--   Core            src/boom_core_step.cpp, `boom_core_step`; Frame: which module leaves the buffer
--                   alone, Buffer: the buffer over a cycle, Counting: the counters and the trace
--   Top             src/boom_core_top.cpp, `core_cycle` for a round and `run` for any number
--   All             src/boom_all.cpp, an earlier core in one file: Rvc `decompress_rvc`, Decode
--                   `decode_one`, Multiply `compute_mul`, Divider `execute_divider_step`, Alu
--                   `execute_alu_unit`, Branch `branch_module`, Csr its CSR file, Snapshots its map table
--                   and free list, Rename `rename_module`, Queue its issue queue, Issue `issue_module`,
--                   Execute `execute_module`, Rob `rob_module`, Rob/Commit `commit_module`, Step
--                   `decode_module` and `boom_core_step`; Decode/Agreement sets the two decoders
--                   beside each other
--   Tb              tb: Encode the instruction encoders of the testbenches, Memory the memories that
--                   answer the core (tb/differential/lsu_minimal_tests.cpp), Bench the runs of it and of
--                   tb/tb_boom_core.cpp, Json and Match the comparison of traces
--                   (tb/differential/trace_json_util.hpp and partial_order_matcher.cpp), Entries
--                   tb/trace_reader.cpp and tb/trace_compare.cpp, Prefix the traces of
--                   tb/differential/hls_prefix_trace_tb.cpp
--   Sim             reference/verilator_trace/standalone_boom_trace.cpp, the driver of the Verilator
--                   simulation: Memory its `SimpleMemory`, Axi `tick` and `memory_tick`, Load the image
--                   loader, Trace the rows and Trace/Cycle `trace_cycle`, Driver `main`; Memory/Lanes what
--                   a beat writes, Load/Lines which lines are good, Axi/Order and Axi/Burst the
--                   responses and the beats of a store, Trace/Address the address of a store,
--                   Driver/Ending how it ends
--   Base            shared lists, tests, bits, texts, trace rows and integers; Tests: concrete inputs
--
-- The model. An unsigned integer of w bits is a number, with `% 2 ^ w` where the code's type wraps; a
-- signed value is its two's complement pattern. Signed overflow, which C++ leaves open, wraps. An array
-- is a list; arrays of DISPATCH_WIDTH, which is 1, are one value. A read of an array past its end, which
-- no valid state makes, gives the default. A function that changes the state takes it and returns it.
-- Loops over arrays are recursion on the list or on the number of rounds that the code's bound leaves,
-- so none needs more fuel than the loop has rounds. `run n` is the first n rounds of the endless loop.
--
-- Texts are lists of bytes, a file is the list of its lines, and a program's result is its exit code.
-- The map of bytes of the simulation's memory is a function. Its reads have fewer than 2 ^ 32 - 1 further
-- beats: the code's loop does not end at that count. The loop of `main` has its limit of cycles as rounds,
-- which is proved enough.
--
-- The divider of src/boom_all.cpp counts to 64: after so many calls it has delivered.
--
-- Not modelled. src/boom_core_merged.cpp is generated from the files above. src/boom_all.cpp uses
-- fields that the headers no longer have: its state here is theirs with these fields beside it, and
-- its `uopc_name` and `op_fcn_from_funct3_funct7`, which nothing calls, are left out. Of the
-- testbenches the fixed programs that they run and what they print are left out, and so are the names
-- and the text of the files that tb/differential/hls_prefix_trace_tb.cpp reads and writes, and the
-- scripts. The generated model of the core, which reference/verilator_trace/standalone_boom_trace.cpp
-- drives, is not in the repository: it is the parameter `Harness`, of which nothing is assumed. The
-- driver's arguments, the text of its rows and its idle stubs for the serial line, the debug port and
-- the UART are left out. src/commit.cpp, src/rob.cpp and `commit_module` of src/lsu.cpp are stubs
-- that do nothing.
pub mod Base
pub mod Config
pub mod Types
pub mod State
pub mod Pipe
pub mod Csr
pub mod Branch
pub mod Frontend
pub mod Decode
pub mod Rename
pub mod Issue
pub mod Execute
pub mod Rob
pub mod Lsu
pub mod Core
pub mod All
pub mod Tb
pub mod Sim
pub mod Top
pub mod Tests
