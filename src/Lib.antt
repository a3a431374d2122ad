-- ===== src/Lib.antt =====
-- Verification of three of the vendor bridges of the device tree, the fingerprint bridge (the directory
-- bridges/fingerprint), the tethering offload bridge (bridges/tetheroffload) and the gatekeeper bridge
-- (bridges/gatekeeper), of two programs beside the modem, its AT multiplexer (modem/mux) and its file
-- service (modem/ccci-userspace/fsd), and of the calibration store of the sensors (sensors-hf).
--
-- The fingerprint bridge stands between Android's AIDL interface and the vendor's HIDL service.
-- `SessionBridge` (bridges/fingerprint/SessionBridge.cpp) is a session: its methods call the service,
-- and `HidlCallback` passes the service's callbacks on. Both share a `LockoutTracker`, which counts
-- failed attempts and keeps its counters in a `LockoutStore`, and a session has a `RemovalBatch`, whose
-- worker thread removes enrolments one by one. Tokens are turned over by HatCodec.h.
--   Fingerprint/HatCodec: hatToBytes and bytesToHat of HatCodec.h.
--   Fingerprint/LockoutStore: crc, put, get, encode and decode of LockoutStore.h; its child Files: load
--     and save. The three calls that reach the file system (openDirectory, readRecord, writeRecord)
--     are the parameter `Files`; Files/Protocol names what the writes rely on (`IsAtomic`), Files/Load
--     what the reads rely on (`IsReadable`).
--   Fingerprint/LockoutTracker: the class of LockoutTracker.h, one function per method, and `run_once`
--     for a wake-up of its thread. Clocks, the liveness of the weak callback and the store are the
--     parameter `Host`; `IsHost` in the child Invariant says what is asked of them.
--   Fingerprint/RemovalBatch: the class of RemovalBatch.h; the thread's loop is cut where it gives up
--     the lock, and `run` takes any interleaving of the methods with those pieces.
--   Fingerprint/Session: HidlCallback and SessionBridge, one function per callback and method; what the
--     service answers is an argument.
--
-- The tethering bridge offers `IOffload` on top of the modem's /dev/mddp. `MddpBackend`
-- (bridges/tetheroffload/MddpBackend.cpp) keeps the upstream, the downstreams and the flows that it has
-- handed to the modem; FlowParser.cpp reads the conntrack messages that the kernel sends.
--   Tether/Flow: attributes, nested, copy, tuple, Flow::key and parseFlow; its child Prefix: contains.
--   Tether/Backend: the members and wake, poison, notice, request, drain, inject and flushFlows. System
--     calls and inet_pton are the parameter `Host`, and so is the answer of `neighbor`, which is
--     modelled for itself.
--   Tether/Backend/Control: notification, receive, control and deactivate, with connectionMode and
--     sysctl.
--   Tether/Checks: name, address, prefix and the tests of interface names.
--   Tether/Policy: reconcile, admit and conntrack.
--   Tether/Api: the binder methods.
--   Tether/Events: the event thread, cut where it gives up the lock, and the life of the object.
--   Tether/Neighbor: RouteSocket::transact and neighbor, over the datagrams of the socket.
--   Tether/Device: the device of the examples.
--
-- The gatekeeper bridge (bridges/gatekeeper/GatekeeperBridge.cpp) offers the AIDL gatekeeper on top of a
-- legacy device, whose tokens have the layout of HatCodec.h.
--   Gatekeeper: enroll, verify, deleteUser, deleteAllUsers and their helpers; the device is the
--     parameter `Device`.
--
-- The AT multiplexer (modem/mux/mindone_mux.c) shares the modem's one AT port among channels, each with
-- a pseudo terminal for the RIL or another application. It opens the channels by a SABM each, starts the
-- RIL when every one is answered, moves the bytes both ways, and asks again for channels that the modem
-- closes, until it gives the session up and starts another.
--   Mux/Crc: crc_init and crc_update.
--   Mux/Frame: what tx_frame writes and what rx_parse finds.
--   Mux/State: struct chan, the static variables, tx_frame, tx_flush, send_msc, chan_reopen,
--     chan_recover, chan_drain and deliver. The clock, making a pseudo terminal (chan_open_pty) and the
--     writes are the parameter `Host`.
--   Mux/Session: setup_complete, resolve, the control commands, on_ua, on_dm, on_disc, handle_frame and
--     a read of serial_read.
--   Mux/Loop: mux_open, recovery_timeout, chan_read, can_take_pty_data, the turns of run, close_mux and
--     the end of a session in main. What `poll` reports and what the reads give are arguments.
--   Mux/Channels: sim_count, chan_init and build_channels.
--   Mux/Life: the first session of main, from the static variables on.
--   Mux/Chat: chat_read, chat and chat_cmux; whether a command could be written is an argument.
-- `by_dlci` is a search in the list of the channels, and an assignment through a pointer puts the
-- channel back under its number. A pseudo terminal that replaces a closed one is taken to get the same
-- descriptor. `handed` and `line` record what writes have taken; the source does not keep it.
--
-- The file service (modem/ccci-userspace/fsd/ccci_fsd.c) keeps the modem's files: it reads a message from
-- /dev/ccci_fs, turns the modem's names ("Z:\NVRAM\x") into paths, makes the system calls that the
-- operation stands for, and writes a reply. It has two tables of descriptors, one for the handles of the
-- single operations and one for the compound requests, and a table of searches, each with an open directory.
--   Fsd/Wire: fs_parse_req, build_resp and its two callers; the result codes.
--   Fsd/Path: fs_wcs_to_str, fs_drive_dir, fs_resolve and path_resolve with its roots.
--   Fsd/Os: the system calls, which are the parameter `Os` over an unknown state of the world, and the
--     three tables. `IsLawful` says what `open`, `opendir`, their closing calls and the others do to
--     descriptors, and `Reads`
--     in Fsd/Reply that `read` gives no more than it is asked for.
--   Fsd/Handles: fs_open_flags and the fs_handle_ functions.
--   Fsd/Cmpt: handle_cmpt_write, handle_cmpt_read and the table g_handles.
--   Fsd/Finds: the searches, fs_rm_recursive, fs_folder_size and fs_dir_count. A directory is read when it
--     is opened: `opendir` answers a descriptor with the names that `readdir` gives until the end.
--   Fsd/Op: the numbers of the operations; Fsd/Serve: the cases of the second switch of `main`.
--   Fsd/Round: the first switch, the search for the older message shapes, and the turns of the loop.
--   Fsd/Descriptors and Fsd/Reply: what is shown of all the operations together.
-- The model is the build with MINDONE_FS_ALLOW_WRITES set, as the source sets it.
--
-- The calibration store of the sensors service (sensors-hf/CalibrationStore.cpp) keeps what the sensor hub
-- reports of its calibration and writes it to files, in reports and in a thread of its own.
--   Sensors/Calibration: layoutFor, seedCache, onKernelEvent (the variant in C++), persistRegion,
--     writePending and a pass of persistenceLoop. The clock and writeIntArray are the parameter `Host`.
--     The three maps are a function; a pass also answers the time that the thread waits for.
--     `IsDisk` in the child Stopped says what a write does to the files.
--
-- Numbers are natural numbers. A 32-bit or 64-bit field holds its bit pattern; where the source stores a
-- number in bytes, or lets one wrap, the remainder is written out. Counters that the source keeps in
-- int32_t are at most 20 by an invariant. A byte string is the list of its bytes, a map an association
-- list. Where the source walks a map by its keys (`mFlows`), the model walks it in the order of entry. A
-- datagram of the connection tracker comes split into its messages. A method that runs under one mutex is
-- one step.
--
-- Fuel: the attribute loop has as many rounds as there are bytes, and each round takes at least four.
-- `receive` has the 256 rounds of the source; the wait in `control` has as many as begin within its
-- 5 s, a number of the host. `deactivate` and the messages that it waits for can call one another; the
-- depth of such calls is 1 here, which no greater depth changes. A datagram of the neighbour dump has as
-- many rounds as bytes. So have rx_parse and the loops that write, since every round but the last takes
-- a byte; the rounds of tx_drain are those that its deadline leaves, a number of the host. The recursion
-- through directories has the nine levels that the source allows (depths 0 to 8); at the tenth it answers
-- what the source does.
--
-- Not modelled: in the multiplexer the commands of modem_handshake, signals, the reports on exit and the
-- change of the user; in the file service its log, the stub handle_bin_region_access that nothing
-- calls, and reading and writing /dev/ccci_fs itself; the system calls below the records of LockoutStore.h, logging, the wiring of
-- services and death recipients, LegacyFingerprint.cpp, in the
-- sensors buildPayload, pushAll, the JSON of the files and the client of the hub, and the other programs of the repository: the
-- audio, camera, GNSS, sensors, codec, radio and power services, the firmware tools and the patches.
pub mod Common
pub mod Fingerprint
pub mod Tether
pub mod Gatekeeper
pub mod Mux
pub mod Fsd
pub mod Sensors
