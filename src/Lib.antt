-- ===== src/Lib.antt =====
-- Models and proofs about the deanos kernel, an i386 kernel in C.
--
-- The parts, and how they interact. Tasks (kernel/task.c) hold open files, a disposition for each
-- signal and an address space; the timer's tick wakes and switches them, and kernel/signal.c calls
-- their handlers on the way back to user mode. The virtual file system (kernel/vfs.c) turns paths
-- into nodes, which drivers such as kernel/ramfs.c read and write. The frame allocator
-- (kernel/pmm.c) owns physical memory: it is set up from the boot loader's memory map, and paging
-- and the heap take frames from it and share them by counting references. The block device layer
-- (kernel/blockdev.c) stands between the file systems and the disk drivers: a table of devices, a
-- write-back cache of 128 blocks with clock eviction, and a queue of requests in front of both. The
-- clock (kernel/rtc.c) keeps wall-clock time between reads of the CMOS clock and turns it into dates
-- and back. All of them move bytes with libc/string.
--
-- The files, and the code they are about:
--   Prelude      Boolean tests, options, indexed lists and single bits over the native numbers
--   Pmm          kernel/pmm.c: the state (g_bitmap, g_refcounts, g_bitmap_bits, g_free_frames) as
--                a record, phys_alloc_frame, phys_free_frame, pmm_frame_ref, pmm_frame_unref;
--                Pmm/Boot is pmm_initialize. The other files under Pmm are proofs.
--   BlockDev     kernel/blockdev.c: the state (g_devs, g_cache, g_cache_hand, g_cache_stats) and the
--                cache operations; BlockDev/Sync has blockdev_read_sync_impl,
--                blockdev_write_sync_impl and blockdev_flush_sync_impl, and BlockDev/Cache their
--                proofs against one plain disk.
--   BlockDev     BlockDev/Ring and BlockDev/Queue are g_pending, g_completed, blockdev_submit_async,
--                blockdev_pump, blockdev_drain_async and blockdev_submit_and_wait over any way to
--                execute a request; BlockDev/Requests has blockdev_validate_request,
--                blockdev_execute_request, blockdev_read, blockdev_write, blockdev_flush and
--                blockdev_flush_all. BlockDev/Executing is what executing a request for a cached disk, or
--                a flush, does, which leaves the queue alone.
--   Rtc          kernel/rtc.c: rtc_time_to_epoch_seconds, rtc_epoch_to_calendar, rtc_resync_tick,
--                rtc_get_wallclock_seconds and get_uptime.
--   Memory       libc/string/memcmp.c and memset.c: memcpy, memmove, memset and memcmp on one memory, in
--                which blocks can overlap.
--   Task         kernel/task.c: the table (g_tasks, g_current, g_next_id, g_sched_ticks) as a record with
--                what is asked of other parts as a list of effects; Task/Life is task_create_named,
--                task_exit_with_status, task_waitpid and reaping, Task/Schedule the scheduler and
--                sleeping, Task/Sending task_send_signal, sessions and groups. Task/Turns and
--                Task/Valid are proofs.
--   Signal       kernel/signal.c: signal_set_action_current, signal_dispatch_current and
--                signal_sigreturn_current on the running task.
--   Vfs          kernel/vfs.c: vfs_node_allows, vfs_name_is_valid, and in Vfs/Path vfs_normalize_path.
--                Vfs/Split, Stack, Resolve and Start are proofs against a stack of names. Vfs/Fds is
--                fd_alloc, vfs_fd_open, vfs_fd_install_node, vfs_fd_close, vfs_fd_dup2, vfs_fd_fcntl,
--                vfs_fd_read, vfs_fd_write and task_close_cloexec_fds_current, its children their proofs.
--                Vfs/Pipe is pipe_open, pipe_close, pipe_read and pipe_write, in turns between sleeps.
--   Ramfs        kernel/ramfs.c: ramfs_read, ramfs_write, and in Ramfs/Directory ramfs_finddir,
--                ramfs_readdir, ramfs_create and ramfs_unlink.
--   Klog         kernel/log.c: klog, klog_read and klog_clear; Klog/History is a proof against all bytes
--                that were written.
--   Kheap        kernel/kheap.c: memory as 32-bit words, the free list, splitting and merging,
--                kheap_initialize, kmalloc, kfree, kcalloc and krealloc; the other files under Kheap are
--                proofs against the row of blocks, and Kheap/Live has the sequences of calls
--                that clients make.
--
-- Each state is a record, each operation a function from the state to its result and the next state.
-- Words of w bits are native numbers with `% 2 ^ w` where the C code can wrap; C `int` results are
-- pos n or negsuc n.
--
-- Bounds and fuel. The clock of the cache has fuel 256: each of the 128 reference bits is cleared at
-- most once, so a victim is found within 129 steps. The walk over the memory map has the size of the
-- tag as fuel, which each entry lowers by at least 1. Taking whole years off a number of days has the
-- days as fuel, taking whole months off has 12, both of which are enough for every 32-bit time. The
-- loops of the queue have fuel 192 and 193: each round moves a request on, each of at most 64 pending
-- ones twice, and each of at most 64 completions once.
--
-- The sweep over dead tasks takes the length of the table as fuel: each round goes on to the next entry
-- or removes one. The loop over a path has the length of the path, of which each round takes a byte at
-- least; the search of the free list has one round more than the heap has room for blocks of 16 bytes;
-- growing the data of a file has 256 rounds of at least 256 bytes up to 64 KiB.
--
-- Not modelled: port and memory-mapped I/O; interrupt masking, since the operations here run with
-- interrupts off or on one processor; the disk drivers, which are a parameter `Driver` with what
-- their calls promise as named hypotheses; the memory that pmm_initialize takes for its own tables,
-- which is taken to be there; the registration of devices. The driver of a partition submits
-- requests and pumps the queue while one is executed: the definitions allow it, as what executing a
-- request does to the queue is a parameter. The switch of stacks and address spaces, fork, memory
-- mappings, lookup through mounts, the nodes that vfs_fd_pipe makes, the file systems on disks,
-- paging, system calls and the network are not modelled. What the heap answers in kernel/ramfs.c and
-- task_create_named, and which addresses paging lets a task write, are parameters.
pub mod BlockDev
pub mod Kheap
pub mod Klog
pub mod Memory
pub mod Pmm
pub mod Prelude
pub mod Ramfs
pub mod Rtc
pub mod Signal
pub mod Task
pub mod Vfs
