-- ===== src/Lib.antt =====
-- mvisor-win-vgpu-driver: the Windows kernel driver of the mvisor virtual GPU.
--
-- The driver (kernelmode/vgpu) gives user-mode OpenGL a virtio GPU. A process opens one virgl
-- context, creates resources in it, maps them, submits commands that use them, and waits for them.
-- Each request becomes commands on two virtio queues; the device returns their buffers, and a
-- deferred procedure call then marks resources idle and frees what a command held.
--
-- The files, and the code each is about:
--   Idr           kernelmode/vgpu/idr.c: identifiers for resources and fences.
--   Memory        kernelmode/vgpu/memory.c: guest memory in pages. Memory/Bitmap holds the
--                 RTL_BITMAP functions, a parameter with the documented laws `RtlLaws`;
--                 Memory/Regions is the abstract view, the list of regions given out.
--   Wire, Driver  the structures of kernelmode/vgpu/command.h and global.h: commands and the
--                 state.
--   Os            what the driver calls and the repository does not contain, as one record.
--   Command       kernelmode/vgpu/command.c: the scatter list (Sg), the queues (Push), and every
--                 command (Send).
--   Lookup        kernelmode/vgpu/control.h: lists of contexts and resources, busy and idle.
--   Interrupt     kernelmode/vgpu/vgpu.c: the completion of commands, and the interrupt routines;
--                 Served reduces what an interrupt keeps to what its steps keep, Messages is about
--                 the numbers of messages.
--   Exec, Request handlers as C statements with early returns and waits; requests and their
--                 buffers.
--   Abi, Ioctl    kernelmode/vgpu/ioctl.h: structures and control codes, and the dispatch on them.
--   Control       kernelmode/vgpu/control.c: one file for each group of handlers. Triples has
--                 rules for their statements; Steady, and Kept, Alone and OfContexts of Ioctl,
--                 reduce what a request keeps to what its steps keep. Unsent: a failed submission.
--   Device        kernelmode/vgpu/vgpu.c: preparing and releasing the hardware, process exit.
--   Lifecycle     kernelmode/vgpu/vgpu.c: the objects that starting, powering up, powering down
--                 and stopping the device take and give back (Balance, Failure), and the
--                 registration with the framework (Entry, Registration).
--   Ownership     who uses which guest memory, across all of the above: claims (Memory), sums over
--                 the state (Totals), the invariant `Owned` (Invariant), each step (Commands,
--                 Taking, Steps, Completion, Deletion), the handlers (Creation, Waits,
--                 Submission), histories (Reach), and what the end of a process gives back
--                 (Returned).
--   Host          the host's side of the commands as an abstract table of resources: what the
--                 driver and the host have in common (Invariant), commands (Sending), steps that
--                 send none (Quiet), steps that take and give (Taking, Steps), the handlers
--                 (Creation, Handlers), histories (Reach), and what a creation without guest
--                 memory leaves behind (Leak).
--   Isolation     what a request may change of another process: the dispatch (Dispatch), the
--                 refusal of a process without a context (Refusal, NoContext), and, with
--                 interrupts in between, histories that a process takes no part in (Outline,
--                 Histories).
--   OneContext    the number of contexts of a process: interrupts (Interrupts) and histories
--                 (Reach).
--   Common        lists, Boolean tests and lemmas. Tests: witnesses and tests.
--
-- Correspondence. A function keeps its name in snake case; a handler `CtlX` is `ctl_x`. The global
-- variables and the device context are one record `Driver`. A pointer to a list entry is the first
-- entry with its identifier. NULL is the number 0, or `none` where the pointer leads to data. A
-- virtio queue is the list of the buffers that the device has not returned, so the completions of
-- an interrupt name places in it. Effects outside the state (commands pushed, kicks, unmapping,
-- fence events) are a list, the latest first. A value that the code reads from a lookaside list
-- without writing it first is a parameter, `stale_buffer` or `stale_resource`.
--
-- Integers are natural numbers with the wrap-around written out. `sg_loop` has fuel: it gets two
-- rounds more than the descriptors that the caller has room for, and it ends within them.
-- Identifiers of processes are numbers; the driver takes their low 32 bits, which are all that
-- Windows uses of them.
--
-- The waits without a time limit are calls of the kernel: during each of a request, the driver
-- serves the interrupts that the parameter `interrupts` lists, and `event_status` says whether, and
-- with what status, the wait for a resource returns. Nothing is assumed of either, so the theorems
-- hold of every such wait, one that ends too early included. A query of a capset waits until its own
-- buffer, the last of its queue, is returned, which is taken first.
--
-- Not modelled: locks and interleavings inside a handler, other requests and ends of processes
-- during a wait, the contents of guest memory, the inside of the WDF framework and of the virtio
-- library, and the Mesa patch under usermode.
pub mod Common
pub mod Idr
pub mod Memory
pub mod Wire
pub mod Driver
pub mod Os
pub mod Command
pub mod Exec
pub mod Request
pub mod Abi
pub mod Lookup
pub mod Interrupt
pub mod Control
pub mod Ioctl
pub mod Device
pub mod Lifecycle
pub mod Ownership
pub mod Host
pub mod Isolation
pub mod OneContext
pub mod Tests
