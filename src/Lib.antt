-- ===== src/Lib.antt =====
-- A model of the processor-in-memory (PIM) simulator: the PIM device with its functions, the memory
-- backend that holds it, the memory controller, and the processor that drives the memory.
--
-- How the parts interact. A processor (sstcomp/AppGen) turns the requests of a generator into events
-- for the memory. The memory controller (sstcomp/PIMBackend/memoryControllerKG.cc) takes an event,
-- translates its addresses and hands it to the memory's backend; an event in the ranges of the device
-- is marked as MMIO (PIMMemController.cc). When the memory has answered, the controller moves the
-- bytes: to or from the backing store, or, for MMIO, through the backend (PIMBackend.cc) to the
-- device (tclpim.cc). A host writes to the registers of the device to start one of its functions,
-- which then issues memory requests of its own at every clock; the backend makes events of them,
-- and the responses call the completions that wait.
--
-- Which file models which part:
--   Pimdef               sstcomp/include/pimdef.h
--   Decoder              PIMBackend/PIMDecoder.h, PIMDecoder.cc; Ranges: what an address decodes to
--   Fsm                  PIMBackend/tclpim_functions.h, userpim_functions.h and both `start`
--   FuncState            PIMBackend/tclpim.cc, `FuncState`; Protocol: its state machine; Histories: sequences of writes
--   Tclpim               PIMBackend/tclpim.cc, the device as the host sees it; Scratchpad, Registers
--   MemCopy, MulVec      PIMBackend/tclpim_functions.cc, userpim_functions.cc, `clock` and the
--                        completions; Machine: the function with a memory; Run: a whole run;
--                        Patient, Rests, Settling: a memory that answers any number of clocks later
--   Schedule             clocks and answers in any order, for a function that waits for its answers
--   Device               PIMBackend/tclpim.cc, `TCLPIM::clock`; Clock, Sharing; Board: the device with
--                        a memory and a host; Frame, CopyRun, MulRun: a run of one function is one of
--                        the device; Calls, Session: a host's call of a function; PatientCopy,
--                        PatientMul: the same with clocks and answers in any order
--   Memory, Event        the interfaces to memHierarchy's backing store and events
--   Backend              PIMBackend/PIMBackend.cc; Pending, Mmio, Delay, Construct
--   Controller           PIMBackend/memoryControllerKG.cc, PIMMemController.cc; Translate, Receive,
--                        Respond, Setup, Bytes; Start: its region, its backing store and `init`;
--                        Dram: a request of the device on its whole way; Answers: what this has to do
--                        with the memory of a board
--   AppGen               sstcomp/AppGen: Requests, Pages, Cpu, Sources; Link: the application's thread
--                        and the simulator's over one AppLink (app.cc, appTransactor.cc); AppTest:
--                        appTest.cc; Spawn: how its thread starts; Stream: singlestream_kg.cc;
--                        Pages.Shuffle; Cpu's Args and Configure: the constructor; Cpu's Maps to
--                        History: the processor with a memory that answers in any order
--   Examples             the theorems at concrete inputs
-- (PIMBackend and AppGen without a prefix are sstcomp/PIMBackend and sstcomp/AppGen.)
--
-- Conventions. A class is a record of its members, an operation a function from the state before to
-- the state after, under the source's name. `Outcome` has a value or a fault: a failed assertion, a
-- fatal error, an access out of range, a call through a null pointer, or what the language leaves
-- undefined. A parameter is an Option where it may not be given, a string with a few known values a
-- constructor. Machine integers are natural
-- numbers with their wrap-around written out; memory is lists of bytes, and words are of_bytes and
-- to_bytes, the low byte first. A callback that a call makes is an entry in a list of the state
-- (`issued`, `injected`, `to_convertor`, `sent`), oldest first. A completion that captures a function
-- and a state is a constructor of `Completion`.
--
-- Bounds. `drive n` runs a function, or the device, for at most n cycles; the theorems on whole runs
-- state a number of cycles that is enough. `play` takes the moves of a schedule, and `rounds` counts
-- how often an answer of the memory follows a clock. `generate_loop` takes the number of rounds that
-- its loop has, and `split_loop` the length of the string, which is at least the number of its
-- rounds. No other function is on fuel. The loop of `receive` has its own `timeout`.
--
-- Not modelled: output, statistics and debugging; the loading of components and the reading of their
-- parameters' text; the generators of the processor's source link, which its constructor refuses with
-- an assertion; the links, the convertor and the nested backend, which are SST's and which the model
-- meets as lists of calls and as parameters (`Backing`, `Platform`, `Generator`); serialization; the
-- RISC-V test programs. The theorems on runs of the functions have one function running, and answer
-- all of its open requests, of which there is at most one, together. The interleavings of the
-- application have a memory that serves the generator's requests in order; the regions under the
-- mutex of the link are single steps. In them `generate` is called under the guards of
-- the processor (`CanGenerate`), with its default window; a step that waits is one that cannot be
-- taken, which stands for the condition variable and its notifications.
pub mod Prelude
pub mod Schedule
pub mod Pimdef
pub mod Decoder
pub mod Fsm
pub mod FuncState
pub mod Tclpim
pub mod MemCopy
pub mod Memory
pub mod MulVec
pub mod Device
pub mod Event
pub mod Backend
pub mod Controller
pub mod AppGen
mod Examples
