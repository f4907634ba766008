-- ===== src/Lib.antt =====
-- Verification of ccnet, a C++ network library with an event loop per thread.
--
-- Prelude: the numbers, lists, signed integers, maps and sets that the parts share. A failed
-- assertion and an exception of the standard library are values of Outcome; what C++ leaves
-- undefined (an index outside a vector, a pointer to a deleted object) stands as a failed
-- assertion too. A size is a number below 2 ^ 64 with the wrap-around of its sums written out.
--
-- Buffer: net/buffer.h, net/buffer.cc and net/endian.h, the byte buffer between a socket and the
-- application. Window says when a buffer is valid and what it holds; Operations, Queue, Find, Search,
-- Integers and ReadFd follow the groups of its methods. `readv` and the byte order functions of
-- the C library are parameters.
--
-- Channel and Epoller: net/channel.h, net/channel.cc, net/epoller.cc and net/poller.cc, the
-- descriptors that a loop waits for. A channel is known by its address. The interest list of the
-- kernel is a parameter, with the laws of epoll(7) for the calls that succeed.
--
-- TcpConnection: net/tcp_connection.cc on a Buffer in each direction. What the kernel answers to a
-- read or a write is an argument; functors queued in the loop and callbacks are lists in the
-- state. Stream, Drain and Runs are about the bytes that are sent.
--
-- TcpServer: net/tcp_server.cc and net/acceptor.cc, the map of the connections of a server, over the
-- LoopPool; functors for the loops of the connections are a list in the state. Counts, Serving and
-- Runs are about how often a connection is established and destroyed.
--
-- TcpClient: net/tcp_client.cc, one connection at a time over the Connector, with the connections and
-- the functors of TcpServer. Single says what a state keeps, Runs takes any calls.
--
-- Connector: net/connector.cc, attempts to connect and their retries. The answers of the system
-- are arguments, and sockets are numbered as they are made. Sound says what a state keeps,
-- Handed which calls hand a socket over.
--
-- TimerQueue: net/timer_queue.cc and net/timer.cc, timers in two sets over a heap by address:
-- Added and Inserted, Expired, Taken and Restarted follow a timer through them, and
-- Reads puts these together for handleRead.
--
-- EventLoop: net/event_loop.cc, the rounds of a loop and its quit, the functors that are
-- handed to it and the wakeup, with the threads taking turns (Steps, Wakeup, Quits), and the active
-- channels of a round (Dispatch, Guard). EventLoopThread: net/event_loop_thread.cc, the handover of a
-- loop to the thread that starts it. LoopPool: net/event_loop_threadPool.cc, the choice of a loop.
--
-- Date and TimeZone: base/date.h, base/date.cc and base/time_zone.cc, dates as Julian day numbers,
-- broken-down time, local time (Local, LocalTrip), the search among the transitions of a zone
-- (Bound, Search) and the reader of zone files (File, Format, FileTrip, FileError). They compute on
-- integers: the casts of toUtcTime to `int` keep the low 32 bits, and the `int`s on the way between
-- dates and day numbers are listed beside the functions (Ints is about their bounds). Elsewhere signed
-- overflow, which C++ leaves undefined, is not modelled.
--
-- Sudoku: net/sudoku/sudoku.cc, the dancing links (Walk, Undo, Cover, Column) and the solver over them
-- (Solver). Nodes are indices, and a loop over a ring runs on kMaxNodes rounds of fuel: more than
-- there are nodes. The depth of the search is at most one more than the number of cells.
--
-- LogStream: base/log_stream.h and base/log_stream.cc, the buffer of a log line and the conversion
-- of numbers to text; what `snprintf` prints is an argument. StringPiece: base/string_piece.h, the
-- comparison of texts, with the order of `memcmp` over unsigned bytes.
--
-- Condition, BlockingQueue, BoundedBlockingQueue, CountDownLatch and ThreadPool: the files of these
-- names in base, threads that meet at a mutex. A critical section is one step, and a call that
-- waits is a pass of its loop for each time that it gets the mutex; which thread goes next is left
-- open. A task that a worker of the pool has taken is called in a later step, without the mutex.
-- pthread condition variables and boost::circular_buffer are parameters, with the laws of their
-- documentation.
--
-- Every other loop is a structural recursion, but those of the conversion of numbers, whose fuel of
-- 20 and 16 rounds is proved to be enough for 64 bits. Not modelled: logging, and the wrappers of
-- system calls, of threads and of addresses, which only pass their arguments on.
pub mod Prelude
pub mod Buffer
pub mod Date
pub mod Channel
pub mod Epoller
pub mod TcpConnection
pub mod Connector
pub mod TimeZone
pub mod TimerQueue
pub mod LoopPool
pub mod EventLoop
pub mod StringPiece
pub mod LogStream
pub mod Condition
pub mod BlockingQueue
pub mod BoundedBlockingQueue
pub mod CountDownLatch
pub mod ThreadPool
pub mod TcpServer
pub mod TcpClient
pub mod Sudoku
pub mod EventLoopThread
