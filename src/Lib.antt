-- ===== src/Lib.antt =====
-- casycom, an asynchronous COM framework: objects own no references to one another, but send messages
-- through proxies, which a routing table leads to their destinations.
--
-- The parts, and where each stands:
--   * Vector: vector.c and vector.h, growing arrays of elements of any size, as one block of bytes with
--     a size, a capacity and an element size. `reserve` stands for vector_reserve, and so on.
--   * Stm: stm.c and stm.h, reading and writing the aligned body of a message. A stream is the bytes of
--     the body with a position and an end; the body begins at an aligned address.
--   * Msg: msg.c and msg.h, messages, the hand-over of bodies, and in Msg/Signature the validation of a
--     body by the signature of its method.
--   * Protocol: the stubs that make a call a message, and the dispatchers that make it a call again: app.c,
--     timer.c, io.c, xcom.c and xsrv.c. Iids holds the addresses of the interfaces.
--   * Links: main.c, the routing table _casycom_omap, sorted by destination.
--   * Registry: main.c, the table of object classes and what is looked up in it.
--   * Classes: io.c, timer.c, xcom.c and xsrv.c, the factories of the library's own objects with their
--     dtables, and casycom_enable_externs, which registers some.
--   * Timers: timer.c, the watch list and the loop around poll.
--   * FdIo: io.c, the object that reads and writes a descriptor.
--   * Wire: xcom.c, a message's header on a socket, with the names in it; Writer: Extern_writing.
--   * Externs: xcom.c, the Extern object, its connections and extids and the handshake; in Externs/Reading
--     Extern_reading, in Externs/Incoming the validation of what it has read, and in Externs/Outgoing the
--     queueing of messages, the timer's handler and the opening.
--   * Relay: xcom.c, the COMRelay object between a local object and an Extern. Server: xsrv.c, the
--     ExternServer object. Framework: main.c, what these objects call there.
--   * Sockets: xcom.c, xsrv.c and their headers, the calls that connect or bind a socket or start a program
--     and hand the socket to an object. Util: util.c, dumps and the search for a program.
--   * Loop: main.c, delivery of the input queue, errors and the forwarding of errors to creators.
--     Loop/Checks holds the checks that casycom_queue_message makes in debug builds, and Loop/Receipt
--     tells what becomes of a message by the links and the objects alone.
--   * Destruction: main.c, the cascade that follows when a link or an object is destroyed.
--   * MainLoop: main.c, casycom_main and what it does when idle, single rounds, initialization and reset;
--     Signals: main.c, the signal handlers, which set what casycom_idle then sends.
-- A stub of Protocol makes a message with Msg and writes its arguments with Stm. Loop delivers it to the
-- object that Links finds for it, which is made by the class that Registry found when the proxy was
-- made. Timers sends its replies through Protocol and marks links for Links. Base holds what the parts
-- share, and Tests runs the theorems on concrete data.
--
-- Conventions. Numbers are natural numbers, with the wrap-around of the C type written out where an
-- operation can reach it. An address that is only compared is a number, 0 for null. `none` as the result
-- of an operation is a failed assertion, a crash such as a write behind an array, or a loop without
-- end. Loops that are not over a list take fuel: the doubling in vector_reserve 65 rounds, one more
-- than the bits of a size; a binary search one round more than the elements;
-- casymsg_validate_sigelement one for each character of the signature; the chain of creators in
-- casycom_forward_error what its caller gives, where more than the length of the chain is enough; the
-- cascade of destruction one round for each link, and one more; the sweep of unused objects one round
-- for each marked link, and one more; the reset of the framework one round for each link; the search in
-- PATH one round for each byte of its array.
--
-- Functions that the sources only call are parameters: `qsort`, the events that `poll` returns, the
-- answers of `read`, `write`, `recvmsg`, `sendmsg`, `accept`, `fork`, `access` and of the calls on
-- sockets, the time of `clock_gettime`, and the constructors, handlers and dispatch functions of the
-- client's objects. What the theorems ask of these is a named hypothesis. The main loop takes a list of
-- rounds, and its destructions a fuel; a call of sendmsg or recvmsg is one element of a list of answers.
--
-- Not modelled: logging, backtraces and the texts of debug output, the allocation of memory but for
-- xrealloc, spin locks, and the type-safe wrappers that the preprocessor makes.
pub mod Base
pub mod Vector
pub mod Stm
pub mod Iids
pub mod Util
pub mod Msg
pub mod Protocol
pub mod Links
pub mod Timers
pub mod Registry
pub mod FdIo
pub mod Wire
pub mod Writer
pub mod Framework
pub mod Externs
pub mod Relay
pub mod Server
pub mod Sockets
pub mod Loop
pub mod Destruction
pub mod MainLoop
pub mod Classes
pub mod Signals
pub mod Tests
