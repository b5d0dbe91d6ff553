-- ===== src/Lib.antt =====
-- Linux-labs: the user-space binder library with its service manager, and kernel modules and programs
-- that stand alone.
--
-- The repository holds small programs and kernel modules. The largest is binder/: a library that
-- packs messages for the binder driver (binder/binder.c), the service manager that other processes
-- register with and ask for services (binder/service_manager.c), and a test server and a client. The
-- others share no code with it: ram disks (ramdisk-lab/), hash lists (hlist/), a device with waiting
-- readers (waitqueue/), a server on epoll and its client (epoll/), and kernel modules that each show
-- one interface of the kernel: kobjects and ksets, devices, a character device, debugfs, sysctl,
-- sequence files, tracepoints and a timer.
--
-- Files and what they model:
--   Memory: byte-addressed memory as a function, `load` and `store` of little-endian words.
--   Binder/Types, Binder/Driver: the structures and constants of binder/binder.h and
--     binder/include/linux/binder.h; the commands that are written to the driver.
--   Binder/Bio: `bio_init`, `bio_init_from_txn`, `bio_alloc`, `bio_put_*`, `bio_get_*` of
--     binder/binder.c, with the names of the source. A function that changes a `binder_io` or the
--     memory returns the new one; a pointer that may be NULL is an `Option`.
--     Binder/Bio/Layout says what it means that the memory holds a list of items.
--   Binder/Looper: `binder_parse` and `binder_send_reply` of binder/binder.c over the state of a
--     process, `Machine`; in Binder/Looper/Call `binder_call` and `binder_done`, in
--     Binder/Looper/Rounds `binder_loop`, `binder_thread_loop` and `binder_thread_routine`. The loops
--     that wait for the driver run over the list of its answers. `binder_parse` has fuel, one unit
--     for each byte of the buffer, and Binder/Looper/Loop is about why that is enough.
--     Binder/Looper/Call/Origin is about where the reply of a call comes from.
--   ServiceManager: the list `svclist` and `find_svc`, `svcinfo_death`, `do_find_service` and
--     `do_add_service` of binder/service_manager.c. A service stands in the list with its address,
--     and a write through a pointer is a write at the address. ServiceManager/Registry is the map
--     from names to handles that the list implements. ServiceManager/Contract is that map with its
--     steps, as clients see it.
--   ServiceManager/Handler: `svcmgr_handler`, one request at a time.
--   ServiceManager/Main: the handler and `svcinfo_death` under `binder_loop`, as `main` runs them,
--     in one thread. The death of an address that is no entry's, through which the code calls, is a
--     state in which nothing more is said.
--     ServiceManager/Start: `main`. ServiceManager/LogText: `str8`, and
--     ServiceManager/TextTest: `str16eq`.
--   Binder/Device: `binder_open`, `binder_close` and `binder_set_maxthreads` of
--     binder/binder.c. Binder/Looper/Call/Quiet is
--     about what a process without a handler sends in a call.
--   TestServer: the handlers of the two services of binder/test_server.c. The array `name` on the
--     stack is an address. TestServer/Main: `svcmgr_publish` and `test_server_handler`; the function
--     that a call of an address runs is an argument. TestServer/Main/Start: `main`.
--   TestClient: `svcmgr_lookup` of binder/test_client.c. TestClient/Greetings: `sayhello`,
--     `sayhello_to`, `saygoodbye` and `saygoodbye_to`. TestClient/Main: `main`, which is the only
--     process here that takes references for itself; TestClient/Main/Counts counts them.
--   TestServer/Main/Calls is about a greeting that goes through the server and back to its client.
--   Memory/Copy: `memcpy` and `memset`. Resources: what a kernel module takes from the kernel and
--     gives back, as a list of events, with a ledger of what is held and counts of both.
--   Ramdisk/SampleBlk: `sampleblk_request`, `sampleblk_alloc`, `sampleblk_free`, init and exit of
--     ramdisk-lab/sample_blk.c. Ramdisk/MkReq: `ramhd_make_request`, `ramhd_ioctl`, `ramhd_init` and
--     `ramhd_exit` of ramdisk-lab/ramhd_mkreq.c. Ramdisk/Req and Ramdisk/ReqModule:
--     `ramhd_req_func`, `ramhd_init` and `ramhd_exit` of ramdisk-lab/ramhd_req.c.
--     Ramdisk/Transfer has what their loops do to memory: it copies segments to and from an area.
--   Students: the lists of hlist/hlist2/hlist.c. Commands: the table of hlist/hlist1/hlist.c.
--     What both print is in Students/Dumps and Commands/Dumps.
--   WaitQueue: `globalvar_read` and `globalvar_write` of waitqueue/waitqueue.c. WaitQueue/Runs has the
--     steps of their threads: what stands under the lock is one step, and `flag = 1` is another.
--   EpollServer: `socket_server` and `main` of epoll/epoll_server.c. EpollClient: `main`
--     of epoll/epoll_client.c, over the lines that it is given and the results of its writes;
--     EpollClient/Exchange has both ends of a connection.
--   KernelModules/Kset: kobject-example/kset_init_register/kset.c. KernelModules/Kobjects: the two
--     other modules of kobject-example/. KernelModules/Devices: device-demo/.
--     KernelModules/CharDevice: char/. KernelModules/DebugFs: debugfs/debugfs_demo.c.
--     KernelModules/TracePoint: trace_point/tracepoint-sample.c, sysctl/sysctl.c and
--     single_open/single_open.c. Their starts and exits are functions of what the kernel answers, with
--     the events of Resources. KernelModules/SeqFile: the iterator of seqfile/seqfile_test.c, in the
--     calls of a reader. KernelModules/TraceTimer: trace_events/test_trace_event.c, whose timer can
--     fire between any two calls of the start and of the exit; what holds then in
--     KernelModules/TraceTimer/Phases.
--   Tests: concrete messages and requests.
--
-- Machine words: binder/Makefile builds for 32-bit ARM with BINDER_IPC_32BIT, so a `size_t` and a
-- pointer have 32 bits there. Sizes that are computed from what a message holds keep their
-- wrap-around; an address is a natural number, and no buffer is taken to wrap around the address
-- space. The positions in a ram disk are 64-bit words. The block layer's requests are arguments: that
-- it counts the bytes of the segments, and that positions stay in a word, are hypotheses (`IsRequest`,
-- `IsBio`), and so is what the kernel answers to allocations (`Answers`).
--
-- The counters of the test server are ints of 32 bits. What becomes of its process when a name is
-- written beyond the array on the stack is not told: the state keeps that it happened (`is_overrun`).
-- The static array of `str8`, which the log lines read, is passed on as the bytes that it holds.
--
-- Not modelled: the driver, of which the commands that it is sent are recorded and the answers are
-- arguments; the words of its commands, which the kernel's macros make, and `malloc`, both of which
-- are arguments; the start of threads; the log lines; the functions of the ram disks that
-- do nothing and return nothing, and `ramhd_open` and `ramhd_release`;
-- binder/include/private/android_filesystem_config.h and android_filesystem_capability.h, headers of
-- another project, but for the ids that are used; the modules and programs that only print or make
-- one call: bit/, module-para/, module-template/, trace_printk/, kobject-example/hotplug/,
-- fs/file_write.c and backtrace/bt_user.c.
pub mod Prelude
pub mod Memory
pub mod Binder
pub mod ServiceManager
pub mod TestServer
pub mod TestClient
pub mod Resources
pub mod Students
pub mod Commands
pub mod Ramdisk
pub mod WaitQueue
pub mod EpollServer
pub mod EpollClient
pub mod KernelModules
mod Tests
