-- ===== src/Lib.antt =====
-- The devices, the address translation, the interpreter and the shared structures of the machine
-- that brig emulates.
--
-- brig runs a guest on a translated ARM model; the guest talks to devices through registers in
-- memory, and devices talk to the guest through interrupt lines. The parts modelled here:
--
-- Gic models brig/brig/src/guest/devices/arm/a9gic.rs. Gic/Defs has `GlobalInterruptController` as
-- `Controller` and its methods under their names (`acknowledge`, `update`, `running_priority`,
-- `eoi`, `raise`, `rescind`); Gic/CpuInterface and Gic/Distributor/Defs have `read` and `write` of
-- the two register files. Gic/Chain has the invariant on the links between served lines, Gic/Run
-- runs a sequence of accesses, Gic/Level gives the controller as an `IrqController`.
-- Pl011 models brig/devices/primecell/pl011/src/lib.rs, and Pl190
-- brig/devices/primecell/pl190/src/lib.rs. Both take any `IrqController` (Devices, from
-- brig/common/src/device.rs): the record has the operations and what a device relies on, and the
-- generic controller fills it. The tests put the devices on the lines of the generic controller.
-- Virtio models brig/devices/virtio/src. Virtio/Queue/Defs has `VirtQueue` and its rings in the
-- guest's memory, Virtio/Queue/Event the walk over a descriptor chain and the requests, and
-- Virtio/Defs the registers of `Virtio` with the offsets of `VirtioBlock`. The map to host addresses
-- and the callbacks on the block device are parameters.
-- Mmu models brig/brig/src/guest/devices/arm/mmu.rs and `write_to_el` of brig/brig/src/guest/models.rs:
-- Mmu/Walk has `translate_l1` to `translate_l3`, Mmu/Exception the entry of exceptions, Mmu/Buffers
-- `raw_guest_translate` and `guest_translate` with the three buffers. The crate of page table
-- descriptors is the parameter `Paging`; the guest's memory is a function from table addresses and
-- places to descriptors. A page fault does not return to its caller: an `Ending` says which happened.
-- Timer models brig/brig/src/guest/devices/arm/generic_timer.rs with `encode_sysreg_id` of
-- brig/common/src/sysreg_helpers.rs, over any `IrqController`.
-- Memory models brig/common/src/memory.rs, with the `BTreeMap` as a list in the order of its keys, and
-- brig/dbt/src/bump_alloc.rs, with places in the buffer for pointers.
-- BitFields models common/src/bits.rs and common/src/width_helpers.rs.
-- Rudder models the intermediate representation, common/src/rudder: types, constants and statements.
-- Interpreter models brig/dbt/src/interpret.rs over brig/dbt/src/register_file.rs: Run has `interpret`
-- and the statements, Casts, Values and Registers what they use. References into arenas are places,
-- names are numbers, an `i64` is its word of 64 bits, and floating point numbers are their bits.
-- Opt models three passes of borealis/borealis/src/rudder, with the iterator over blocks of
-- common/src/rudder/block.rs (Blocks). Threading has opt/jump_threading.rs; Typed, Simulated and
-- Preserved run a function next to the threaded one in the interpreter, and Formed, Passed and
-- Iterated have the pass as a whole. Uses has the use analysis of analysis/dfa.rs, and Dead has
-- opt/dead_stmt_elimination.rs; Agreed, Effects, Killed, Eliminated and Swept run a function next to
-- the one without its dead statements. Substituted compares a statement in the interpreter with what
-- `replace_use` of common/src/rudder/statement.rs makes of it. Purity has analysis/pure.rs, and its
-- children run a pure function in the interpreter.
-- RingBuffer models common/src/ringbuffer.rs: Wrap has the places in the ring, Write and Read the
-- two sides, Fifo both together.
-- Common holds what the parts share: tests on numbers, arrays, machine words and their bits, and
-- `Outcome`, which says what a call does: return, panic, or run for ever.
--
-- Numbers are natural numbers; a field of w bits has its width in a comment, and the operations
-- that can leave the width write the remainder by 2 ^ w out. `usize` has 64 bits, and an overflow
-- wraps around as in the release profile. Atomic operations are steps of one thread.
-- A `match` on offsets is a chain of tests in the source's order; a `panic!`, a `todo!`, a failed
-- `unwrap` and an index out of bounds are the outcome `panic`.
-- The loop of `eoi` runs on fuel of one more than the number of lines. On a chain of links with
-- falling priority, which is what the invariant states, that is enough; beyond it the outcome is
-- `hang`, and a chain that long visits a line twice, so the loop does not end.
--
-- The walk over a descriptor chain has fuel for 2 ^ 16 + 1 descriptors: a link has 16 bits and the
-- memory does not change meanwhile, so a longer walk goes round for ever. A notification handles a
-- number of entries that is a parameter, since the guest may make entries available meanwhile.
--
-- The interpreter has fuel for the depth of calls and for the blocks of each; without fuel the
-- outcome is `hang`. Interpreter/Fuel is about runs with more of it. The iterator over blocks has
-- fuel for one block more than all statements have targets, and each is taken off its stack once.
-- The type of a statement has fuel for the statements of its block, which refer only to earlier ones.
-- The purity analysis has fuel for the depth of its calls: a function under way is not entered again,
-- so one more than the number of functions is enough. The order in which it takes the functions, a
-- hash map's in the code, is a parameter. Dead statement elimination takes
-- `is_pure` as a parameter, which panics for a name without a result.
--
-- Not modelled are the translator to machine code, the front end, the inliners and the other passes of
-- the optimiser, the kernel, log output, and the mapping of registers into the address space.
pub mod BitFields
pub mod Common
pub mod Devices
pub mod Gic
pub mod Interpreter
pub mod Memory
pub mod Mmu
pub mod Opt
pub mod Pl011
pub mod Pl190
pub mod RingBuffer
pub mod Rudder
pub mod Timer
pub mod Virtio
