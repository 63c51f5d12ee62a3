-- ===== src/Lib.antt =====
-- The kernel modules and the RAM Plus programs of AxionOS: what their code computes, and that it is
-- right.
--
-- Three modules extend the Linux scheduler. BORE (kernel/modules/bore_sched) scores each task by how
-- long it runs without sleeping, and lets a new task inherit a score. The latency module
-- (kernel/modules/latency_sched) turns a task's priority into an offset of its wake-up. Dragonite
-- (kernel/modules/ax_dragonite) sets the CPUs and the nice values of tasks that user space names. BORE
-- and the latency module are called by the kernel through tracepoints that they register; Dragonite is
-- called by writes to files under /proc. The modules do not call each
-- other, but BORE and the latency module keep their records of a task in the same words of it.
--
-- RAM Plus (config/ramplus) gives the device a swap file. The setup program, which init starts after the
-- boot, makes a file of the size that a property asks for, activates it and checks it, and publishes its
-- size and a status as properties. Hooks in the low-memory killer read the size of the active file, and
-- correct the killer's account of free swap. The two programs meet in /proc/swaps, which both read, the
-- one with the extractions of a C++ stream and the other with fgets and fscanf.
--
-- The files and the code:
-- - Base: Boolean tests, lists and integers over the native numbers, words of 8 to 64 bits, bit masks,
--   texts, decimal digits.
-- - Kernel: the pointers, policies and flags that the modules read of a task, and the tracepoint
--   registry (Kernel/Tracepoints), the conversions of seq_printf (Kernel/Seq) and the handlers of
--   sysctl entries (Kernel/Sysctl) as interfaces.
-- - Bore/Penalty: log2p1_u64_u32fp, calc_burst_penalty and binary_smooth of bore_sched.h, with
--   Penalty/Log, Clamp and Smooth on what they compute.
-- - Bore/Context: struct bore_ctx, bore_score, effective_prio_bore, update_penalty and
--   restart_burst_bore of bore_sched_main.c; Context/Prio and Invariant on them.
-- - Bore/Cache: init_bore_reciprocal_lut, burst_cache_expired and update_burst_cache.
-- - Bore/Inherit: inherit_from_parent, inherit_from_thread_group, inherit_from_ancestor_hub and
--   count_children_upto2, over a store of tasks. Inherit/Sample is about the loop over a list, Walk
--   about the walks on the tree, Value and Hub about the answers, Frame about what stays as it is.
-- - Bore/Probes: the seven handlers probe_bore_* and init_bore_tasks. Probes/Steps makes them the steps
--   of one system, Probes/Update and Fork are about accounting and forking.
-- - Bore/Lifecycle: bore_sched_init and bore_sched_exit.
-- - Bore/Hooks: the hooks of include/trace/hooks/bore.h, each with the probe attached to it, and a hook
--   that fires. Hooks/Life is about the state of a loaded module, Hooks/Run about everything that
--   happens from its loading to its unloading.
-- - Bore/Proc: bore_proc_show and bore_table, with Proc/Page on the page read back.
-- - Latency: latency_sched_main.c; Latency/Offset, Gran, Table and Lifecycle as their names say.
--   Latency/Hooks (include/trace/hooks/latency.h) and Latency/Proc are as for BORE, with Hooks/Offsets
--   on the range of the offsets.
-- - Overlay: the word of memory that latency_get_se and bore_get_ctx_se both return, as an entity and as
--   a burst time, with Overlay/Words on a change of priority there.
-- - Dragonite: axd_set_affinity, axd_reset_affinity, axd_set_boost and axd_pin_kswapd of
--   ax_dragonite_main.c; Dragonite/Loops, Balance, Report, Affinity, Boost and Failures on them.
-- - Dragonite/Proc: the five write handlers of ax_dragonite_proc.c, with Proc/Balanced on the references
--   over a session of writes and Proc/Target on the task that a request reaches.
-- - Dragonite/Lifecycle: axd_init and axd_exit, with axd_proc_init and axd_proc_exit, over an interface
--   of the tree of /proc; Lifecycle/Leaves on what they leave there.
-- - Dragonite/Files: the pages nta_pid_show and dragonite_stats_show, and the six files with their
--   handlers. Files/Counters and Handlers are about the counters, Session and Page about a sequence of
--   writes and what the pages show after it, Refused about a write that is not taken.
-- - RamPlus/Swaps: how ax_ram_plus_setup.cpp (ReadSwapEntries, FindLowestZramPriority, FindRamPlusSwap)
--   and lmkd/ram_plus_lmkd_hooks.cpp (ReadRamPlusSwapKb) read /proc/swaps. Swaps/Rows is the text that
--   the kernel prints, Scan, Fields, Lines and RoundTrip are about reading it, Lowest about the search
--   for zram, and Enough about the fuel.
-- - RamPlus/Lmkd: the hooks of ram_plus_lmkd_hooks.cpp, with Lmkd/Free on the free swap.
-- - RamPlus/Os: the system calls and properties of the setup program as an interface, with the laws that
--   the theorems use; RamPlus/Prog: a program as a function of the state of the system; RamPlus/Holds:
--   the rules for what holds before and after one.
-- - RamPlus/SwapFile: the functions of ax_ram_plus_setup.cpp from PublishStatus to RemoveSwapFile, with
--   SwapFile/Zeroes on WriteZeroes, Prepared on PrepareSwapFile and Poll on WaitForZramPriority.
-- - RamPlus/Setup: Fail, FailPreparedSwap, FailActiveSwap and main, which is cut where an early return
--   leaves it. Setup/Assertions says what holds between its parts, Steps and Quiet are about the calls,
--   Failing and Sound go through main, and Outcome is about whole runs. Fails, Path and Exit are about
--   the runs that exit with 0.
-- - Tests: concrete data and the theorems at it.
--
-- A `u32` or `s32` of the C code is its bit pattern, and each operation wraps where the type does. A
-- loop over a list is recursion on the list. The walks of inherit_from_ancestor_hub follow pointers, so
-- they run on fuel, and `none` means that it ran out: IsFamily says that the tree of tasks is finite
-- and not deeper than the fuel, and with that hypothesis the walks are proved to end. A handler that
-- returns early returns its state unchanged. The loops over /proc/swaps run on as much fuel as the text
-- has bytes, the loop of WriteZeroes on as much as it has bytes to write, and each step takes at least
-- one. The 60 polls of WaitForZramPriority are recursion on their number.
--
-- What the kernel provides is an argument: the clock, the current task, MAX_RT_PRIO, whether an
-- allocation or set_cpus_allowed_ptr succeeds, the task of a pid, and the text functions strim,
-- kstrtoint, kstrtoul and sscanf. A cpumask is one unsigned long, as the driver fills it. The registry
-- is an interface whose laws say that a registration adds its hook or fails, and that an
-- unregistration removes it; the tree of /proc is another, with the same laws on files and subtrees. A
-- hook that fires calls the probe that is registered for it. What seq_printf prints for a number, and
-- what a sysctl handler stores for a text, are arguments, with the law that the one prints the decimal
-- digits of a number of its type, and the other stores a number in decimal digits that its type holds.
--
-- The system below the setup program is an interface too. Its laws say what a call of swapon, swapoff,
-- unlink, open or SetProperty does to what can be seen of the state, by its answer, that the other
-- calls change nothing of that, that a write that succeeds fills its range, and that fsync keeps it.
-- ParseUint is a parameter. A text of /proc/swaps is a list of bytes without a NUL.
--
-- Not modelled: RCU and preemption (a handler or a search sees one state, and Dragonite's tasks keep
-- their names while it runs), the kernel's seq_file and its open functions, the root tables of older
-- kernels, and NULL name and mask pointers, which no caller passes. The registry holds which hooks are
-- registered, and not the probe of each: the models of the hooks' headers say which handler that is. Of
-- RAM Plus: log lines, descriptors, calls that are repeated after a signal, other programs that change
-- the swap file or the two properties during a run, and a number that does not fit its fscanf
-- conversion, which is undefined: there the model fails to read. An overflow of an int64_t in the hooks
-- of the low-memory killer, which is undefined too, is `none`. Everything else is product configuration,
-- resources, policies and build scripts.
pub mod Base
pub mod Kernel
pub mod Bore
pub mod Latency
pub mod Overlay
pub mod Dragonite
pub mod RamPlus
pub mod Tests
