-- ===== src/Lib.antt =====
-- baserver: a C++ server framework over boost::asio, and its example of an HTTP server.
--
-- A server accepts connections with service handlers, which a pool keeps. A handler runs one session:
-- its reads, writes, timers and close run in an io service, the calls of the user's work handler in a
-- work service, and the bytes go through two buffers. The HTTP server is such a work handler: it
-- parses what it reads and writes a reply. The hash map is a tool for the users of the framework.
--
-- The files, and the code that they are about:
-- - Base and its children: lists over the native numbers, words of 64 bits (`size_t`), and `Run`, a
--   run that ends with a value or stops with a fault: an assertion, a deadlock, an access out of
--   bounds, a division by zero, the overflow of an `int`, or an exception.
-- - ErrorCode: the values of boost::system::error_code that the handler makes or tests.
-- - IoBuffer: bas/io_buffer.hpp, a vector with two offsets. IoBuffer/Bounds is about the offsets and
--   the assertions, Contents about the unread bytes, Stream about sequences of calls.
-- - ByteString: bastool/byte_string.hpp, a vector of bytes with the methods of `std::string`.
--   ByteString/Sections is about the section that a position and a length name, Replace about
--   `replace`, `erase` and `append`.
-- - HashMap: bastool/hash_map.hpp, buckets of pairs of keys and values. HashMap/Sizes is about the
--   number of buckets, Bucket about one bucket, View about the map that the buckets stand for,
--   Methods about the methods and their histories, Clean about `clean`.
-- - ServiceHandler: bas/service_handler.hpp. `System` is one handler with the tasks that wait in its
--   services, its operations under way and its callbacks made; ServiceHandler/Calls has the other
--   methods, Steps the events: a call from outside, the run of any waiting task, the completion of
--   any operation. Session and Lifecycle are about whole sessions, Closing about a stopped handler,
--   Draining about what a close comes to, Shutting and Releasing about the socket where nothing
--   connects.
-- - HandlerPool: bas/service_handler_pool.hpp. HandlerPool/Create is about `create_handler`, Methods
--   about `get_handler`, `put_handler` and `clear`, Invariant about histories of the pool with the
--   handlers that are in use.
-- - IoServicePool: bas/io_service_pool.hpp, the pool of io services with their threads and work
--   objects. IoServicePool/Control has `start`, `stop` and `wait`, Rotation is about the io services
--   that `get_io_service` gives, Growth about those that a load adds, Invariant about histories.
-- - IoServiceGroup: bas/io_service_group.hpp, the pools of io services of a server. Stopping is about
--   the loop of its graceful stop.
-- - EndpointGroup: the endpoint_group of bas/sync_client.hpp. Turns is about the pairs that it gives.
-- - Server: bas/server.hpp, the accepts over the pool of handlers and the group of io services.
--   Server/Handlers is about the handlers that the server has taken, Accepting about one new accept,
--   Steps and Serving about histories, Listening about a server from its constructor on.
-- - Client: bas/client.hpp, `connect` over a pool of handlers. Connecting is about what it gets.
-- - SyncHandler: bas/sync_handler.hpp, the blocking handler: `System` is the handler with the thread
--   that may wait in a call, the queue of its io service, its operation and its timer.
--   SyncHandler/Tasks has what the io service runs, Calls the calls and the events, Waiting and Frame
--   are about a waiting thread through one task, History about all histories, Progress about the end
--   of a wait.
-- - Work: bastool/server_work.hpp and client_work.hpp, the work handlers that a business object drives
--   by state codes, in ServerWork and ClientWork. Buffers is about their buffers, Echo about the echo
--   server, Proxy has examples/proxy/server/biz_proxy.hpp, and Relay has an
--   exchange through it: Request and Reply are about its halves, Exchange about the whole.
-- - Http: the request of examples/http/server/request.hpp. Http/Parser is request_parser.hpp and
--   request_parser.cpp, one function for each state. Http/Parser/Split is about input in parts, Safety
--   about the faults, Loops and RoundTrip about requests that are written out. Http/ServerWork is
--   `on_read` of server_work.hpp.
--   Http/Reply is reply.cpp, Http/RequestHandler is request_handler.cpp and mime_types.cpp, with
--   Decoding about `url_decode` and Confinement about the files of an answer.
-- - Tests: the theorems at concrete inputs, and runs of the definitions.
--
-- How they meet: a pooled handler is `make` and `clear` of ServiceHandler, and a handler that the pool
-- hands out is `bind` of it, which begins a session; a handler's buffers are those of IoBuffer. The
-- server takes its handlers from HandlerPool and its io services from the pools of IoServiceGroup,
-- which are those of IoServicePool. A work handler of Work keeps the read buffer of its service
-- handler, and the parent's and the child's meet in the relay of the proxy.
--
-- Conventions. A method that holds a mutex is one step; interleavings are sequences of steps, with
-- the index of the task or operation that comes next chosen from outside. Sums and differences of
-- `size_t` wrap at `2 ^ 64`, and vectors are shorter than `2 ^ 63`. A byte is its number, and a `char`
-- its byte. In a pool and in a request's headers the head of a list is the back of the vector. An
-- address of a handler is new with each `new`. The hash and the equality of keys of the hash map, the
-- error codes and byte counts of completions, the results of a socket's open and bind, and whether the platform's mutex may be taken again by
-- its holder are parameters, and so are the business objects of a work handler, what the threads of an
-- io service pool run before they are joined, the file system, the stream that reads hexadecimal
-- digits and the printer of sizes. The io service of a blocking handler has one thread and runs its
-- queue in order. The loops of `clean` use fuel: one more than the length of the bucket, which each
-- turn makes shorter or passes by one; and the loop of a group's stop: two more than the number of the
-- round in which no thread runs a handler.
--
-- Not modelled: the pool of synchronous handlers and the synchronous client over it; of the
-- client, the parents and the data of connections; of the server, the composition of `stop` with the
-- acceptor's thread and the group's stop; the allocators and the console output of the examples; the
-- main programs, the Windows service and the SSL example, which only call the operating system and
-- boost::asio.
pub mod Base
pub mod ByteString
pub mod Client
pub mod EndpointGroup
pub mod ErrorCode
pub mod HandlerPool
pub mod HashMap
pub mod Http
pub mod IoBuffer
pub mod IoServiceGroup
pub mod IoServicePool
pub mod Server
pub mod ServiceHandler
pub mod SyncHandler
pub mod Tests
pub mod Work
