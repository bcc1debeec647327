-- ===== src/Lib.antt =====
-- A model of lws, the Lua web services module for NGINX, with theorems on its core.
--
-- The program's parts and the files that model them:
--   Table     src/lws_table.c, src/lws_table.h: a hash table with chains by Brent's method and a queue
--             through its entries, with optional limits on the time and the number of entries. A slot
--             index stands for the pointer to an entry, the list of slots for the queue, 0 for the
--             null pointer of a value. Defs, Find, Insert and Ops are the code; the other files state
--             the invariant (Valid) and the content (Spec), and relate the code to them.
--   Http      src/lws_http.c: the table of HTTP statuses and its lookup.
--   State     src/lws_state.c, src/lws_state.h: the Lua states of a location, their timers and the
--             allocator of a state with a memory limit.
--   Requests  src/lws_module.c: the handlers that give a request a state, queue it, run it in a thread
--             and release the state at its end (Ops), the reads of the request body (Body), the limits
--             and variables of the configuration (Conf), the cached status of a file (Files), and the
--             request headers of lws_handler, those with one key joined (Merge), with a list by key for
--             their table and allocations that succeed.
--   Library   src/lws_lib.c: the decoding of URLs, the parsing of arguments (Args), the tables as a script
--             sees them, the functions that change the response, with the flush (Script), and the order of
--             the chunks of a request (Run).
--   Response  src/lws_module.c: the answer to a request: the headers of the script (Headers, Cookies;
--             Attributes describes the cookies of a Set-Cookie value), the error responses (Errors), the
--             streaming from a pipe (Stream) and the choice of the answer at the end of the script (Finish). The parts of lws_finalization_handler before the answer
--             are in Requests.
--   Monitor   src/lws_monitor.c: the shared state with its modifications (Defs, Body) and its text
--             (Content). A buffer of a body has a size and the bytes in memory, none for one in a file.
--   Profiler  src/lws_profiler.c: the sums of times (Clock), the hook (Hook), and the transfer of the
--             records to the monitor (Sync). A key stands for the pointer to a record.
--   Generator gen/table.c: the computation of the sizes of the table.
--   Base      shared helpers: tests, lists, the binary search that two parts of the code spell out.
--
-- What the environment decides is an argument: the clock, each allocation, what Lua and the thread pool
-- return, the seed of the hash. The string comparisons of NGINX are the parameter `Strings`, with the
-- laws of an equivalence on keys of one length.
--
-- Loops run on fuel: the probe loops on the number of slots, after which a chain is back at its start,
-- the bisection on one more than the length of the table, the decoding of a URL on four steps a byte.
-- The generator's search for a prime has fuel up to twice the number; the loops over a Set-Cookie value
-- and over the body of a modification have one step more than there are bytes.
--
-- The words of the counters, the memory account, the timers and the generator wrap at 2 ^ 64; the sizes
-- in the table module do not, since an array of that length cannot be allocated. The status and the
-- result of a chunk are converted to an `int` of 32 bits. The generator is run up to 2 ^ 48.
--
-- That the sizes of the table are prime is a hypothesis on the sizes that an operation meets, since the
-- check of the large ones is not feasible by computation.
--
-- Not modelled: the set-up of a request other than the joining of its headers, the calls of Lua, of
-- files and of sockets, the configuration parser, logging.
pub mod Base
pub mod Http
pub mod Table
pub mod State
pub mod Requests
pub mod Library
pub mod Generator
pub mod Response
pub mod Monitor
pub mod Profiler
