-- ===== src/Lib.antt =====
-- krio: a family of coroutine crates. This library models the parts of it that carry logic of their
-- own, and proves what makes them correct.
--
-- The parts and how they interact. `crates/krio-core` has the vocabulary: a `Task` is stepped, and
-- says with a `Suspension` why it stopped. `crates/krio-runtime` and `crates/krio-preempt` hold
-- tasks or fibers in a list and step each once a round. `crates/krio-parallel` shares tasks among
-- agents: each has a work-stealing deque, beside them stands a shared injector, and a task that waits
-- stands in the parked store until it is woken; a safepoint stops all agents.
-- `crates/krio-fiber` runs fibers on stacks that a thread keeps for reuse, and switches between stacks
-- in assembly.
-- `crates/krio-async` turns the CFG of a function that suspends into the tables of a state machine,
-- and audits such tables. `crates/krio-stackless` finds the regions of coroutines that markers spell out
-- in a CFG, rewrites each coroutine into a state machine with a dispatch block, and has an executor
-- emit the blocks that poll the machines of a region.
--
-- Which file models which part:
--   Base, Base/Tests, Base/Lists, Base/Maps: names, lists, and maps with number keys.
--   Core: crates/krio-core/src/lib.rs.
--   Words: `isize` arithmetic of a wasm32 and of a 64-bit target, as numbers below 2 ^ w.
--   Deque: crates/krio-parallel/src/deque.rs. A record of `top`, `bottom`, `mask` and `buf`, and a
--     function for each operation. Deque/Queue is what it promises, a bounded list; Deque/Repr says
--     when a deque stands for a list, with Deque/Index and Deque/Repr/Slots on its indices and
--     slots; Deque/Refine and its children take the operations, Deque/Run whole histories of them.
--   Parked: crates/krio-parallel/src/parked.rs, each operation one step under the lock.
--     Parked/Wakes says what is known of an id, and how the operations change it.
--   Injector: crates/krio-parallel/src/injector.rs, a list.
--   Cluster: crates/krio-parallel/src/lib.rs, the jobs in the deques, the injector and the parked
--     store. Cluster/Jobs counts those that satisfy a test; Cluster/Deposits, Cluster/Search,
--     Cluster/Next, Cluster/Arrivals, Cluster/Kept, Cluster/Settle and Cluster/Work take the
--     operations.
--     Cluster/Drive is `drive_once` over a record `Host` of what a step, the clock and the flags
--     answer; Drive/Rotor and Drive/Ends follow its loop. Cluster/Sleep is how agents go to sleep
--     in `run` and are called by `notify_one`, `shutdown` and `stop_the_world`, in atomic steps;
--     Sleep/Wakes, Sleep/Callers, Sleep/Calls and Sleep/Steps take the steps.
--   Safepoint: crates/krio-parallel/src/safepoint.rs, the two words, `request` and `release`, and the
--     atomic steps of `enter` by any number of agents. Safepoint/Stops and Safepoint/Barrier.
--   Runtime: crates/krio-runtime/src/lib.rs. Runtime/Sweep is a round over a list with the
--     `swap_remove` loop behind it, shared with krio-preempt; Runtime/Load bounds the rounds;
--     Runtime/RoundRobin is the scheduler, and Runtime/Roles the roles and budgets of agents.
--   Preempt: crates/krio-preempt/src/lib.rs, over a record `Fibers` of what it calls of krio-fiber.
--   Fiber/Slots: crates/krio-fiber/src/fiber.rs, the states of a fiber, `resume` and the values that
--     fiber and host hand over; Slots/Handoff takes them. Fiber/Active is the fiber that is active
--     and what it polls of itself, for one thread that makes fibers; Active/Told says what a poll
--     should tell and Active/Polls takes the calls.
--   Fiber/Stacks: crates/krio-fiber/src/stack.rs on unix, with what the system has mapped beside
--     the pool. Fiber/Stacks/Pool takes the pool, Fiber/Stacks/Balance a stack dropped, Fiber/Stacks/Lives
--     all that a thread makes and drops.
--   Fiber/Machine: the registers, the memory and the instructions of the assembly in
--     crates/krio-fiber/src/arch.rs; Machine/Bytes and Machine/Layout are on loads behind stores.
--     Fiber/Switch has a file for the switch of each target, in the terms of Switch/Port;
--     Switch/Waiting and Switch/Resume take a switch back. Fiber/Frame is crates/krio-fiber/src/frame.rs
--     with the trampolines of fiber.rs, and Frame/First and Frame/Starts take a fresh stack.
--   Async: the data of crates/krio-async/src/lib.rs. Async/Transform is
--     `transform_to_state_machine_with_options`, over a record `Host` of the host's CFG and hooks;
--     its children follow the passes. Async/Validate is crates/krio-async/src/validate.rs.
--   Stackless: the data of crates/krio-stackless/src/lib.rs and what it reads of a CFG.
--     Stackless/Regions is `find_regions`, Stackless/Points `find_suspension_points`, with
--     Points/Body on its search and Points/Marks on its result. Stackless/Body is the host of
--     crates/krio-stackless/tests/toy_adapter.rs, in which Stackless/Emit builds the machines:
--     Emit/Suspend says what each step leaves alone, Emit/Blocks takes the blocks of a
--     suspension, Emit/Resume the dispatch. Stackless/Executor and Executor/Priority are
--     crates/krio-stackless/src/executor.rs: Priority/Order and Priority/Bands take the bands, Executor/Turns and
--     Executor/Polls a turn of the cooperative loop when it runs, by the rules of Stackless/Exec.
--     Stackless/Run is `transform_region` and `run_with`.
--   A file Examples applies the theorems of its part to concrete data.
--
-- How the code corresponds to the model: a method that changes `self` returns the new record; a
-- panic, an overflow of `usize` and a read of memory that was not written are `none`; a boxed task
-- is a value with a step function, and `W` is the world that tasks share. Loops over a slice are by
-- recursion on the list. The `while` loops of the two schedulers run on fuel: one more than the
-- steps that their tasks have left, each task counted once more, is enough, and that is proved.
-- `run_with` has fuel for its rounds, and each search in it one more than the body has blocks, which is
-- enough for any search, and that is proved.
-- `drive_once` has fuel for its loop: for a main agent, one more than the steps that the frame still has
-- room for is enough, and that is proved. The f64 milliseconds of the clock are kept abstract.
-- The doubling of `next_power_of_two` has fuel 64, one for each bit of the largest index.
--
-- What is not modelled: the interleaving of a deque's owner with its thieves, whose operations run
-- here without interruption; what `run` does with jobs when agents are interleaved, of which only
-- the number counts in Cluster/Sleep, where `has_work` reads it in one step; the waiting loops of
-- `release` and `await_all`, and a worker's wait at the barrier within a pass, after which the world is
-- a parameter; locks and memory orderings; the observer's calls; the names of fibers, their clock
-- and their suspender, and the ids that other threads take; the wasm and browser glue; the text of
-- error messages; whole passes of the emitted executors. Addresses of the machine of Fiber/Machine do
-- not wrap, and its instructions do what the manuals say.
pub mod Base
pub mod Core
pub mod Words
pub mod Deque
pub mod Injector
pub mod Cluster
pub mod Safepoint
pub mod Parked
pub mod Stackless
pub mod Async
pub mod Runtime
pub mod Preempt
pub mod Fiber
