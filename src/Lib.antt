-- ===== src/Lib.antt =====
-- Verification of the network programs of this repository: the GETFILE file transfer (projects/gflib),
-- its worker pool, its download client with threads (projects/mtgf), the proxy with its cache daemon
-- (projects/proxycacheserver), and the echo and the transfer programs (projects/echoProject,
-- projects/transferProject).
--
-- Parts and how they interact. A client (projects/gflib/gfclient.c) sends "GETFILE GET <path>" to a
-- server (gfserver.c), which reads the header of the request, calls a handler, and lets it answer
-- with a status header and the bytes of the file. A handler hands requests to worker threads by way
-- of a queue: gflib/handler.c has its own ring, the other programs use the linked list of steque.c.
-- In projects/proxycacheserver/cache the handler (handle_with_cache.c) asks a second process, the
-- cache daemon (simplecached.c), for the file; the daemon looks it up in its table (simplecache.c)
-- and passes it packet by packet through a shared memory segment that two semaphores guard.
--
-- Files.
--   Base: shared names, Boolean tests and list lemmas over the native numbers.
--   Text: what the programs use of sscanf, snprintf and C strings; Text/Numbers has the lemmas,
--     Text/Integers has atoi.
--   Net: the stream sockets of the operating system, as an interface with laws. send takes a part of
--     what it is offered and adds it to the stream, recv returns the next bytes of the stream.
--     Net/Ends adds the two directions of one connection, the descriptors that have been closed, and the
--     send that takes no byte; Net/Wire is a socket that runs.
--   Sockets: what the main programs share: the options, the socket from the list of addresses
--     (Addresses), and what a program that goes on has passed (Progress).
--   Echo: echoserver.c (Serving) and echoclient.c (Talking), and both on one connection (Exchange).
--   Transfer: transferserver.c (Sending, Blocks) and transferclient.c (Writing, Receiving), and both on
--     one connection (Whole).
--   Steque: cache/steque.c on an explicit heap (Memory); a steque stands for a list of nodes (Links).
--   Handler: gflib/handler.c, its ring (Queue) and its threads (Pool).
--   GetFile: gflib/gfserver.c and gfclient.c: sending (Send), reading a header (Header), the client
--     (Client; Perform is gfc_perform) and the server (Server; serve_connection is the body of the
--     accept loop, Server/Words says what a request is, Server/Closing and Server/Connection what becomes
--     of a connection, Server/Serving is the loop), and both on one connection (Exchange).
--   Memory: cells at addresses, and commands on them that may fault.
--   Gfs: the GETFILE server library that projects/mtgf and projects/proxycacheserver link as an object
--     file, as an interface with its documented behaviour as laws; what goes out on a context is one
--     sequence of headers and bytes.
--   Workers: worker threads that wait on a condition variable, for simplecached.c, mtgf/handler.c and
--     mtgf/gfclient_download.c, with their creation.
--   FileServer: mtgf/handler.c, the jobs (Jobs), what a worker sends for one (Sending, Answers), and the
--     threads with their start, their waits and their joins (Threads); Starting is the main program of
--     mtgf/gfserver_main.c.
--   Proxy: server/handle_with_file.c (Copying) and server/handle_with_curl.c (Fetching); libcurl is a
--     parameter that feeds its callback. Starting is the main program of server/webproxy.c.
--   Shm: shm_channel.c, the pool of segments (Pool), and the segment between simplecached.c and
--     handle_with_cache.c (Channel), as two step functions that any schedule may interleave;
--     Daemon is the request before the loop, with send_fail and cleanup.
--   WebProxy: cache/webproxy.c up to gfserver_serve, with the pool of segments, and its end on a signal.
--   ListExercise: the linked list of exercises/test.c on the same memory: adding (Growing), searching
--     (Finding) and deleting (Cutting, Deleting).
--   Workload: workload.c, the paths that the download clients ask for: the list (Reading)
--     and the order (Rounds).
--   Download: mtgf/gfclient_download.c: its options, its threads with their queue (Pool) and the file
--     of a request (Files), with the names that gflib/gfclient_download.c gives.
--   CacheDaemon: simplecached.c around its requests: the start (Starting), the queue of connections with
--     its workers and their condition variable (Queue), and read_all (Reading).
--   Cache: simplecache.c, with the sort, the search and the reading of the list of files; gflib/content.c
--     and mtgf/content.c are the same code with other limits.
--
-- Fuel and bounds. A loop over a socket recurses on fuel: a send of n bytes has n + 1 rounds, since a
-- round that goes on sends a byte; a header of at most 1024 bytes has 1025; a body of n bytes has
-- n + 1. The search has one round more than the table has items, reading a list one round a byte at
-- most. A loop of the echo and transfer programs over a stream has one round more than the stream has
-- bytes, a block of a file one more than the block, the loop over folders one more than the path.
-- read_all has one round more than the bytes it is asked for. Threads have no fuel: a theorem about them
-- holds for every schedule. A worker's request is a step of its own that may come at any time or never;
-- which calls of pthread_create succeed is an argument. The theorems below show that these suffice. A size_t is a number below
-- 2 ^ 64.
--
-- Not modelled: curl, sockets, threads and semaphores themselves, which are arguments or the Net
-- interface; usage texts and logging; the main program of the server in gflib; the loop over the
-- requests of gflib/gfclient_download.c but for its file names, since its array of threads has no element;
-- two transfers that share a segment of the cache, one after the other; a signal that does not reach the
-- server's thread in projects/mtgf; the programs of a
-- few lines in exercises.
pub mod Base
pub mod Memory
pub mod Steque
pub mod Handler
pub mod Text
pub mod Workers
pub mod WebProxy
pub mod Workload
pub mod Net
pub mod Sockets
pub mod Echo
pub mod Transfer
pub mod Download
pub mod GetFile
pub mod Gfs
pub mod FileServer
pub mod Proxy
pub mod Shm
pub mod Cache
pub mod CacheDaemon
pub mod ListExercise
