-- ===== src/Lib.antt =====
-- Verification of QG-Server, a TCP and HTTP server around an event loop.
--
-- The program: an `EventLoop` waits for events with a poller, hands them to `EventHandler`s and
-- runs the timers of its `TimerQueue`; a `TcpConnection` reads and writes the bytes of a client; a
-- `HTTPServer` feeds these bytes to a parser through the callbacks of a `HTTPContext`, and answers
-- the `HTTPRequest` that the callbacks fill in with a `HTTPResponse`.
--
-- Files and code:
-- - Common and the files below it: numbers, lists, integers, texts and outcomes. An `Outcome` is
--   `done`, a `fault` (an abort, a failed assertion, an exception that nothing catches, or an
--   access out of range), or `exhausted` where a loop is out of fuel; `Ends P m` says that `m` is
--   done, with a value of which `P` holds.
-- - TimeStamp: src/util/time_stamp.h, the comparisons and `addTime`, and `Now` of
--   src/util/time_stamp.cpp; below it Print (`toString` and `toFormatedString`), Print/Length and
--   Print/ReadBack.
-- - Timer: src/base/timer.h and timer.cpp. Timers are behind pointers: a `Store` gives the timer
--   of each pointer.
-- - TimerHeap: src/base/timer_heap.h and timer_heap.cpp. `up`, `down`, `addTimer`, `popTimer` and
--   `top` are `up`, `down`, `add_timer`, `pop_timer` and `top`. Below it: Order (the order of a
--   heap), Up, Down and Edit.
-- - TimerQueue: src/base/timer_queue.h and timer_queue.cpp. `_push`, `addTimer` and `handleTimer`
--   are `push`, `add_timer` and `handle_timer`. Below it: Invariant, Add, Handle, Work, Fires,
--   Settled, Termination and Hang, and Timerfd: `resetTimerfd` of the branch for Linux.
-- - Http/Request: src/core/http/http_request.h. Http/Context: src/core/http/http_context.h and
--   http_context.cpp, a function for each callback; below it HeaderLines and UrlParts.
-- - Http/Response: src/core/http/http_response.h, http_response.cpp and error.cpp; below it
--   Framing.
-- - Http/Server: src/core/http/http_server.h and http_server.cpp; below it Pages, Messages and
--   Bodies.
-- - Http/Session: one connection of the HTTP server, from the bytes read to the bytes written;
--   below it Sending, Answered, Exchanging and Conversation.
-- - EventHandler: src/core/event_handler.h and event_handler.cpp; below it Dispatch. A mask of
--   events is a record of bits.
-- - ReadWrite: the loops of src/util/rwtool.h over the results of the system calls, and
--   `readFile`; below it Sending.
-- - TcpConnection: src/core/tcp_connection.h and tcp_connection.cpp. `handleRead`, `writeInLoop`,
--   `handleWrite`, `handleClose` and `close` are `handle_read`, `write_in_loop`, `handle_write`,
--   `handle_close` and `close`; each returns the connection and its effects on the rest of the
--   server. Below it Reading, Writing and Closing, the events of a connection in any order.
-- - Pollpoller: src/core/poll/Poller.h, Pollpoller.h and Pollpoller.cpp; `Wait` is `wait` of
--   Pollpoller/Wait. Below it Slots and Update (the indices), Interest (a table of the watched
--   descriptors, which the poller implements, with a file for each operation), Wait/Found and
--   Wait/Marked.
-- - Kqueue: src/core/poll/KqueuePoller.h and KqueuePoller.cpp; below it Filters, Watching and
--   Stale.
-- - Accepter: src/core/accepter.cpp, with `handleNewCon` of src/core/server.cpp and `getNextLoop`
--   of src/core/loop_thread_pool.cpp; below it Counting. Accepter/Closing: the end of a
--   connection, `handleConnectionClose` of src/core/server.cpp and `closeConnection` of
--   src/core/tcp_connection.cpp, as steps of the base loop and of the loop of the connection;
--   below it Counts, Settled, and Race: the two loops that change the number of connections.
--   Accepter/Pool: `start` of src/core/loop_thread_pool.cpp and `getLoop` of
--   src/core/loop_thread.cpp; below it Rounds, and Handshake and Handshake/Met: a thread that
--   makes its loop and one that asks for it, as steps. Accepter/Serving: the constructors of
--   src/core/server.cpp and src/core/accepter.cpp, and `run`, up to the first turn; below it
--   Ready. Accepter/Arriving: the constructor and `handleConnection` of
--   src/core/tcp_connection.cpp, from the accepter to the loop of the connection; below it Taken
--   and Watched. Accepter/Opening: `init` of src/core/accepter.cpp, with src/util/config.h; below
--   it Listening.
-- - EventLoop: `addFunctor`, `handlePendingFunctors` and `loop` of src/core/event_loop.h and
--   event_loop.cpp, the queue of src/util/block_queue.h and the pipe of the waker, as steps of the
--   loop and of the threads that add functions; below it Delivery and Delivery/Draining.
--   EventLoop/Registry: the handlers, in the loop's map and in its poller; below it Watching,
--   Refines and Placing. EventLoop/Timers: `runAt`, `runAfter`, `runEvery` and the time to wait;
--   below it Sleep and Due. EventLoop/Turn: the body of `loop`, which calls the timer queue, the
--   poller, the handlers and the functions; below it Alive and Delivers. EventLoop/Construct: the
--   constructors and the destructors of the loop and of its waker; below it Started and Ended.
-- - Queue: src/util/block_queue.h, as steps of the threads that share a queue; below it Wakes.
-- - Epoll: src/core/poll/sync_event_demultiplexer.h and sync_event_demultiplexer.cpp, over an
--   interface for what the kernel does; below it Waiting.
-- - Net/Passive: src/util/nettool.h; below it Balance. Net/Socket: src/core/socket.h and
--   socket.cpp; below it Port. Net/SysCall: the system calls that these make, as a list.
-- - Threads/Pool: src/base/thread_pool.h and thread_pool.cpp, as steps. Threads/Atomic:
--   src/util/atomic.h.
--
-- Bounds and fuel: `size_t` has 64 bits and wraps, and a heap holds at most `max_size` pointers,
-- so that the index of a child does not wrap. `up` and `down` give their loops one round more than
-- there are slots. `handle_timer` and `turn` take the fuel of the timers from the caller.
-- `handle_read` gives its loop one round more than there are results of ::read. The wait for epoll
-- takes fuel, and a theorem says what it does for any. Times are integers without a bound, since
-- overflow of a signed integer is undefined in C++; the timeout of poll has 32 bits.
--
-- Arguments of the model: the readings of the clock, what a timer's callback adds to its queue,
-- what the callbacks and functions of a turn do to the loop, the date, what accept, ::read,
-- ::write, poll, kevent, epoll_ctl, epoll_wait and fcntl return, the results of getaddrinfo,
-- socket, bind and listen, the ends of a pipe, where a new handler comes to lie, what to_time_t
-- returns, what getLoop sees at each wake, the file system (`stat`, with what a stream on the file
-- gives), what the memory of a member held before it was set, and the parser under src/lib, which
-- is another project's code: its callbacks for a buffer, how many bytes it took, its error and
-- http_parser_parse_url.
--
-- Not modelled: logging, `printRequest`, `getTimeOfDay` and the texts of handlers, the creation of
-- threads, the setters of callbacks, the members of the timer queue for Linux in
-- src/base/timer_queue.cpp, which do not compile, and the destructors but those of a socket and of
-- an event loop.
pub mod Common
pub mod TimeStamp
pub mod Timer
pub mod TimerHeap
pub mod TimerQueue
pub mod Http
pub mod Kqueue
pub mod Epoll
pub mod EventHandler
pub mod Queue
pub mod ReadWrite
pub mod TcpConnection
pub mod Accepter
pub mod Pollpoller
pub mod EventLoop
pub mod Net
pub mod Threads
