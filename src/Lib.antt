-- ===== src/Lib.antt =====
-- A model of epic_poold, the mining pool daemon, with the theorems that make its parts correct.
--
-- The program: a listener thread (server.cpp) gives each connection to a pool of clients
-- (client_pool.hpp), whose thread owns the clients of one epoll instance. A client (client.cpp) reads
-- lines of JSON, answers them, and has shares checked by the hash pools (pp_hashpool.cpp,
-- rx_hashpool.cpp), to which a thread queue (thdq.hpp) leads. The node (node.cpp) brings new blocks,
-- which the listener's pools pass on to every client. encdec.cpp, itoa_ljust.cpp and vector32.h are the
-- codecs and the 32-byte hashes that these parts share. main.cpp reads the configuration (jconf.cpp) and
-- starts the node and the server.
--
-- The modules:
--   Base: the shared names; the Boolean tests, the lists with indices and the bits of native numbers.
--   Codec: encdec.cpp. A buffer is a list of character codes; an access outside one gives none.
--   ItoaLjust: itoa_ljust.cpp. A number is its bit pattern; the text is appended to the output. The
--     uninitialised `d` is an argument. The uint64_t printer calls itself, and so takes fuel; two
--     calls below the first are enough, since a quotient by 10^9 of a word of 64 bits, taken twice,
--     fits 32 bits.
--   Vector32: vector32.h. The 32 bytes; an SSE load is the little-endian value of 16 bytes.
--   Thdq: thdq.hpp. A run is a sequence of critical sections; the condition variable keeps how many
--     threads sleep, are woken, and have not yet notified. Thdq/Vector is thdv.
--   ClientPool: client_pool.hpp. The client class is a record of its operations, the answers of the
--     kernel are arguments, an exception or a call on null is an outcome. ClientPool/Lifetime puts
--     the listener's steps beside the thread's. ClientPool/Descriptors and
--     ClientPool/Admission count where a descriptor is, ClientPool/Thread is about the thread's
--     steps, ClientPool/Ownership follows a descriptor through a run, and ClientPool/Ending to the destructor. The constructor's
--     exceptions are there as well.
--   Client: client.hpp, client.cpp, workstruct.hpp and check_job.hpp. The JSON parser, the hash pools
--     and the node's current job are parameters; a message is kept as the texts that it is printed
--     from. Client/Line is process_line with its limit on calls, Client/Share, Client/Submit and
--     Client/Request the way of a share, Client/Datasets and Client/Hashing the same with the
--     two hash pools in place of the parameter, Client/Job and Client/Bounds the texts of a job and the
--     nonces in it. Client/Reader is the reading loop, over any client: its fuel is the number of bytes that have
--     arrived plus one, since each read takes a byte at least; the loop over the lines has the length
--     of the buffer plus one. Client/Stream and Client/Arrival compare it with one pass over the bytes;
--     Client/Serving is the client that stands behind it.
--     Client/Birth is the constructor, with the counter of the extra nonces, and the destructor;
--     Client/Distinct compares the work of two clients.
--   PpHashpool: pp_hashpool.hpp and pp_hashpool.cpp. Each store, lock and test is a step of a thread; a
--     shared lock is known from where the threads stand. PpHashpool/Locks is about the exclusive
--     lock, PpHashpool/Contexts and PpHashpool/Writing what each step keeps; PpHashpool/Loading is
--     notify_block, PpHashpool/Hashing a round of a hashing thread in whole.
--   RxHashpool: rx_hashpool.hpp and rx_hashpool.cpp, in the same way. A cache is named by the seed that it
--     was filled from. RxHashpool/Caches is what every step keeps, RxHashpool/Overlap the run of two
--     calculations for one slot, RxHashpool/Seeds the choice of the slot.
--   Workers: the hashing threads of both hash pools, from push_job to the promise, on the queue of Thdq;
--     what they answer is in the two pools. Workers/Answers follows each job.
--   Server: server.hpp and server.cpp. The list of client pools, over any class of pools; a pointer to
--     a pool is its place in the list. Server/Choice is the choice of a pool, Server/Listen and
--     Server/Accepting the loop over what the system answers, Server/Start and Server/Blocks the ports
--     and the way of a block. Server/Pools puts the pools of ClientPool into the list, with the
--     tests and calls of the listener and the steps of the pools' threads; Server/Atomic is the listener's
--     work in one go.
--   Rpc: json.h. An exception and a failed assertion are outcomes beside a value; the parser is a
--     record of the operations that are used of it.
--   Node: node.cpp and node.h. A step is a function on the state that may throw, and the state stays.
--     The job's way through json_proc_msg is Node/Values, Node/Template, Node/Reply and Node/Message,
--     the receive loop is Node/Receive, with the length of the buffer plus one as the inner loop's
--     fuel, since a message has a byte at least. The hash pools, the server, the socket and the clock
--     are a record of operations. An element of the list of jobs has an address, to which current_job
--     points. Node/Seeds, Node/Difficulty, Node/Fill, Node/Accepted and Node/Jobs follow a job;
--     Node/Typing says which messages have the types that the code takes for granted; Node/Handling,
--     Node/Invariant, Node/Stream and Node/Chunks are the messages and their runs; Node/Handout joins
--     the node and the client. Node/Submit and Node/Submission are the way back of a solved job, with
--     printf's numbers of at most 20 digits, which every word of 64 bits has. Node/Connect is the socket:
--     node_connect, thread_main around it, and shutdown; Node/Sockets follows its descriptors.
--   Jconf: jconf.cpp, jconf_p.hpp and the levels of loglevels.hpp. The file and its parser are parameters,
--     what an uninitialised variable holds is an argument, and the values are the list of those found so
--     far. Jconf/Table is the table, Jconf/Getters the getters, Jconf/Parsing the loop over the table,
--     Jconf/Accepting what its tests give the getters, Jconf/Files the whole of parse_config. A file that
--     is not there is written from config_json.tmpl, as far as the system lets it. Jconf/Documents is what
--     the default text says.
--   Log: log.hpp, log.cpp and loglevels.hpp. A file is what was written to it, the time is a text that is
--     given, and a null FILE gives none; itoa has three calls, as above. Log/Calls has the calls by level and
--     the text of the time, Log/Message is what a message leaves in the file.
--   Time: time.hpp without the clocks; what each sleep returns is given.
--   Socks: socks.h, as what a call does to a socket. Client/Birth uses it.
--   Main: main.cpp, up to the start of its parts. The files are a function from names. Main/Restart is a
--     first start and the one after it.
--
-- Not modelled: the sockets, epoll and pipes of the system themselves, with the calls of
-- client_pool.hpp that fail and throw (epoll_wait, read, write); the clocks of the system, which are
-- arguments of the parts; the JSON parser; the proofs of work of RandomX and ethash. The parts other
-- than Log do not keep what they log.
pub mod Base
pub mod Codec
pub mod ItoaLjust
pub mod Vector32
pub mod Thdq
pub mod ClientPool
pub mod PpHashpool
pub mod RxHashpool
pub mod Server
pub mod Client
pub mod Rpc
pub mod Node
pub mod Jconf
pub mod Log
pub mod Socks
pub mod Main
pub mod Workers
pub mod Time
