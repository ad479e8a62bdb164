-- ===== src/Lib.antt =====
-- A model of the driver of gen_utp, the C++ code in c_src, as functions and step functions.
--
-- The Erlang side calls the driver through a port: `control` for requests, `outputv` for data. Each
-- port belongs to a handler. A `SocketHandler` owns a UDP socket and its options, and delivers what
-- was received; a `UtpHandler` adds one connection of libutp, with a queue of what waits to be sent;
-- `Client` and `Server` differ in how the connection begins; a `Listener` keeps the processes that wait
-- for one. A port starts with a `MainHandler`, which makes a listener or a client of it on request and
-- passes everything on to that from then. The first of them is the main handler: it keeps the map of the
-- descriptors whose input the handlers want and of the processes whose exit they want to know of. libutp
-- calls a `UtpHandler` back when data arrives, when it can send, and when the connection's state changes.
--
-- The files, and what of c_src they model:
--   Base        the names that all share: lists, results with the driver's exceptions, machine words
--   WriteQueue  write_queue.h, write_queue.cc: `push_back`, `pop_bytes`, `clear`, copy, destructor
--   Coder       coder.h, coder.cc: `EiEncoder`, `EiDecoder`, `EiFun`, method for method, and the
--               `try` blocks of the handlers that decode arguments
--   Driver      the replies and the messages: utils.cc, and when a specification makes one term; the
--               replies as bytes when memory runs out (Memory); the runtime's queue of a port, as an
--               interface
--   Address     socket_handler.cc, `SockAddr`
--   Options     socket_handler.cc, `SockOpts::decode` and `decode_and_merge`, and the other end of it
--               in src/gen_utp.erl, `options_to_binary`
--   Reading     socket_handler.cc, `emit_read_buffer` and what it calls
--   Sockets     socket_handler.cc: `setopts`, `getopts`, `sockname`, `open_udp_socket`
--   Connection  utp_handler.h, utp_handler.cc, client.cc, server.cc: requests, callbacks, `outputv`,
--               `do_send_to`, `input_ready`
--   Binary      drv_types.h, drv_types.cc: `Binary`, an owner of a reference to a counted binary
--   Monitors    main_handler.cc: `add_mon`, `del_mon`, `del_mons`, `process_exit`
--   Main        main_handler.h, main_handler.cc: the main handler as the others use it (Registry), `listen`
--               and `connect_start` (Requests), `control`, `outputv` and `stop` (Dispatch), and
--               utpdrv.cc: the entry points over all ports (Entry, Input)
--   Listener    listener.h, listener.cc: requests and `stop` (Defs), `input_ready` (Incoming)
--   Locks       locker.h and what every method does with the mutexes (Methods, Calls), as threads that take
--               turns
--
-- A handler's state is a record with the fields of the class. A method is a function from the state
-- to the new state, the events (messages, calls of libutp and of the runtime, in order) and the reply
-- of `control`, which is the list of the calls of `EiEncoder` that make it. A `Result` is an error
-- where the C++ throws, and `fault` where it has no defined behaviour, such as the front of an empty
-- list. Numbers are natural; a `size_t` wraps at 2^64, a `uint32_t` at 2^32, and an `int` is read off
-- 32 bits.
--
-- What is not c_src is an argument: the ei library (`Ei`), the runtime's queue (`DrvQueue`, with what
-- erl_driver documents of it as `DrvQueueLaws`), `getaddrinfo` and `getnameinfo`, what the system calls
-- answer, and what libutp does in `UTP_Write`.
--
-- `SockOpts::decode` runs on fuel, one round for each byte of the binary: each round reads at least one
-- byte. All other loops recurse on a list or a count.
--
-- A loop of `connect` is a list of answers, none while it goes on. A handler is a number in the maps of the
-- main handler, and a process, a monitor and a descriptor are numbers; there `driver_monitor_process` and the
-- like are arguments, and the runtime's counted binaries are an interface (`DrvBinaries`). Outside Binary a
-- `Binary` is its bytes, or none.
--
-- Not modelled: `utp_init`, `utp_finish` and `utp_stop_select` of utpdrv.cc; the order on `SockAddr`; the
-- allocation of the handlers; tracing, and the making and destroying of the mutexes; the unset bytes that a
-- `Binary::decode` which throws leaves in a field. Outside Locks each method
-- is one critical section; in Locks a method is its acts on the mutexes and on what they guard, whether there
-- is a main handler is one answer for a call, and the fields of a connection are left out.
pub mod Base
pub mod WriteQueue
pub mod Coder
pub mod Driver
pub mod Address
pub mod Binary
pub mod Monitors
pub mod Listener
pub mod Locks
pub mod Main
pub mod Options
pub mod Reading
pub mod Sockets
pub mod Connection
