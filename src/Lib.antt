-- ===== src/Lib.antt =====
-- The Reactor network library: a TCP server on epoll. An Acceptor on the main event loop accepts
-- clients; TcpServer makes a Connection of each and gives it to one of the sub-loops, which run on a
-- thread pool. A loop waits in epoll, and calls the Channels that are ready; the Channel of a
-- Connection calls it to read or to write, through a Buffer each way. A user's server, such as the
-- EchoServer of the example, cuts the input buffer into messages and replies. A timer of each
-- sub-loop takes out the connections that are idle. A log is written by a thread of its own.
--
-- Files, and the code that each models:
-- - Prelude and its children: numbers, tests, lists, machine words and association lists.
-- - Buffer (src/Buffer.cpp, src/include/Buffer.h): the three-part byte buffer. readFd takes `readv`
--   as a parameter. Storage is the part of std::vector and std::copy in use; Inv the layout, Refine
--   and Take the bytes in it, Read is about readFd, Calls about any sequence of calls.
-- - EventLoop.Recency (src/EventLoop.cpp): m_lruconnection, m_connectionmap and
--   m_delayDeleteConnectionfd, with newConnection, updateConnection, delayDelete, deleteConnection
--   and removeTimeOutConnection. An iterator is the number of a list node; the use of one whose node
--   is gone is an error value. Index, Keep, Order and Deletion have the invariant and the order,
--   Expiry and Popped are about the timer.
-- - EventLoop.TaskQueue (src/EventLoop.cpp, src/EventFd.cpp): addTask, handleWakeUp, stop and the
--   rounds of loop, as turns of threads; `write` and `read` on the eventfd are parameters. Wakeup is
--   about any sequence of turns, Service about how soon a task runs, Stopping about the end of loop.
-- - EventLoop.Dispatch (src/EventLoop.cpp, src/Epoll.cpp): epollwait and the rounds of loop, over any
--   answers of `epoll_wait`.
-- - Timer (src/Timer.cpp): to_timespec.
-- - ThreadPool (src/ThreadPool.cpp): the workers, their queue and stop, as turns of threads. Order and
--   Fairness are about the order of the tasks, Join about the end of the threads.
-- - Server (src/TcpServer.cpp): the map of Connections with the sub-loops' lists, and the callbacks
--   from these that the constructor sets. Ownership is the invariant, Rounds each handler, Safety
--   the handlers in any order. Clock has the times of the last activity, which src/Connection.cpp sets;
--   Idle and Listed put the lists against them, and Timing is about the timer of such a server. The
--   clock is the event of a later time and does not go back.
-- - Server.Interest (src/Connection.cpp, src/TcpServer.cpp): the Channels of the Connections on the
--   epolls of the loops, from the constructor of a Connection to its destructor. A Connection is
--   destroyed when it leaves the map: no worker holds it then. Change and Kept are about one call of a
--   Channel, Lifetime, Handlers and Turns about one event, Always about any run.
-- - Shutdown (src/TcpServer.cpp, src/ThreadPool.cpp, src/EventLoop.cpp): the main thread, the I/O
--   threads and the thread in stop, from the constructor to the last join, in turns. Left and Bound
--   count the turns left, Invariant is about the pool, Moves and Turns about one turn, Orders about
--   what stop has still to do, Ending about the end.
-- - Wiring (the constructors and setters of src/Channel.cpp, src/EventLoop.cpp, src/Connection.cpp,
--   src/Acceptor.cpp, src/TcpServer.cpp, example/EchoServer.cpp): what the std::functions hold. Stored
--   is about the constructors, Reached has the calls, Calls what they come to.
-- - Channel (src/Channel.cpp, and updatechannel and removechannel of src/Epoll.cpp): epoll_ctl is a
--   parameter; Kernel states what its manual page promises, and Listed has a kernel that keeps it. Flags is about the event masks,
--   Registration about what the kernel watches, Dispatch about handleevents.
-- - Connection (src/Connection.cpp): onmessage, send, sendto, writeTo, closeconnection, isTimeOut.
--   The kernel's answers to `readv` and `send` are lists. Receive and Transmit are about one call;
--   Outgoing has any sequence of sends, writeTo tasks and write events.
-- - Socket (src/Socket.cpp, src/InetAddress.cpp): the options, the listening socket, bind, listen,
--   accept4, and addresses. The system calls are parameters; Documented states what their manual
--   pages promise.
-- - Acceptor (src/Acceptor.cpp): the constructor, which Setup is about, and onconnect over any list of
--   answers of `accept4`, which Accept is about.
-- - TimesTamp (src/TimesTamp.cpp): the two texts of a point in time; localtime is a parameter. Digits is
--   about a field, Text about the whole.
-- - Log (src/Log.cpp): SetOutputTarget and GetOutputStream, with std::ofstream as the standard has it.
--   Message has the text of a Log object and its destructor, Delivery sets the destructor with
--   AsyncLogging against the one without.
-- - Echo (example/EchoServer.cpp): HandleOnMessage and OnMessage. Frames and Hostile are about one call,
--   Chunks about a stream that is cut anywhere; Session has the handler under onmessage, over read
--   events.
-- - Stress (StressTest/test.cpp): the client of the stress test, its handlers of one connection.
--   Replies and Receive are about handle_recv, Writing and Requests about try_fill_pipe, Wrap about a
--   length that wraps around.
-- - Protocol: that client and the EchoServer without worker threads, over one connection.
-- - AsyncLogging (src/AsyncLogging.cpp): Append, ThreadFunc, start and stop, interleaved at their
--   critical sections. Conserve has the invariant; Steps, Rounds and Flush are about the steps,
--   Soundness and Exit about runs, Drain and Ending about the end of the thread. Lifetime has the object
--   from getInstance to its destructor, with the calls of its users in between.
--
-- Bounds. A size_t is a number below 2 ^ 64 with its wrap-around written out, an int32_t is kept as
-- its 32 bits. Buffers are assumed below 2 ^ 63 bytes, the most that a std::vector<char> holds. The
-- loop of HandleOnMessage has fuel: one round for each complete message and one to stop is
-- enough, where the lengths are honest. The loops of onmessage and sendto end with the list of the
-- kernel's answers; as many answers as there are bytes are enough for sendto, and any list that ends
-- the reading is for onmessage.
--
-- try_fill_pipe has fuel for the requests that fit, which are 500 at most. The join of the log thread
-- gives it five steps: it may hold buffers, and have the current one to write before it ends.
--
-- A sequence of turns is any list of events; one that cannot come next ends the run with `none`.
--
-- Not modelled: the system calls of src/Timer.cpp; what std::put_time makes of the time; the worker
-- threads of example/EchoServer.cpp with a Connection that outlives its place in the map; the client
-- and the main program in example, and the set-up and the printing of StressTest/test.cpp, which are
-- input and output.
pub mod Prelude
pub mod Buffer
pub mod EventLoop
pub mod Server
pub mod Channel
pub mod Connection
pub mod Echo
pub mod AsyncLogging
pub mod ThreadPool
pub mod Log
pub mod Socket
pub mod Acceptor
pub mod Stress
pub mod Protocol
pub mod TimesTamp
pub mod Timer
pub mod Wiring
pub mod Shutdown
