-- ===== src/Lib.antt =====
-- Verification of libcpr, a C library of small utilities.
--
-- The program's parts and the files here:
--   Endian    src/endian.h: numbers of 8 to 64 bits read from and written to byte blocks. Each C
--             function has a definition of its name.
--   Memory    src/memory.c: cpr_memset, cpr_memcpy, text in hexadecimal digits (cpr_hexdup,
--             cpr_hexload), owned pointers (cpr_new, cpr_free), and the count of an object's
--             holders (cpr_makeref, cpr_retain, cpr_release, cpr_count).
--   Bitset    src/bitset.c and bitset.h: sets of bits packed in bytes.
--   Pipeline  src/pipeline.c and pipeline.h: the bounded channel of pointers between threads. It
--             takes memory from Memory and locks from the C library. One pass of a loop under the
--             lock is a function (put_round, get_round, drain_round), the calls are loops of
--             passes, and Pipeline/System has the threads as a step relation.
--   Strchar   src/strchar.c: length, copies, comparison, case and cuts of text, with cpr_memcpy
--             from Memory.
--   Memio     src/memio.c: a stream over a block of memory, with cpr_memcpy from Memory and
--             cpr_strlen from Strchar.
--   Thread    src/thread.c: semaphore, wait group and shared lock. The threads that use one of them
--             are the step relations of Thread/Permits, Thread/Tasks and Thread/Sharing, and
--             Thread/Wakes has those that the shared lock holds asleep. Thread/Shims is src/thread.h.
--   Strtype   src/strtype.c: strings that carry their size and length, with cpr_strlen, cpr_strtrim
--             and cpr_strchop from Strchar and cpr_memcpy from Memory.
--   Mempager  src/mempager.c: an allocator that cuts memory off pages; its header has 24 bytes.
--   Bufio     src/bufio.c: a descriptor with a buffer for each direction; read, write and poll are
--             parameters. Bufio is the reader, Bufio/Writer the writer. It takes cpr_memcpy from
--             Memory, cpr_strlen from Strchar, and the search of a delimiter from Memio.
--   Keyfile   src/keyfile.c: sections of keys; Keyfile/Lines has the lines that load_keyfile reads,
--             Keyfile/Files loading and saving; Keyfile/Texts, Saved, Header,
--             RoundTrip, Sections and Reload are about a file that was saved. It takes cpr_upper,
--             cpr_lower, cpr_equal and cpr_match from Strchar.
--   Sync      src/sync.c: deadlines on a clock, which is an argument.
--   Socket    src/socket.c: characters and lines over a socket. Socket/Edit is the line editor that
--             cpr_getline implements. It takes cpr_strlen from Strchar.
--   Address   src/address.c: socket addresses and their texts, with the families of Socket, cpr_strdup
--             and cpr_equal from Strchar.
--   Events    src/events.c: an event on one descriptor or two; Events/Owned has sequences of calls.
--   System    src/system.c: make_dir, tests of paths, and the scans of a file's lines and of a
--             directory; System/Getline has getline, the one function here that is for Windows.
--   Service   src/service.c and cpr_crit of src/system.c: whether the program runs, and its log; the
--             calls of the system are a list, and Service/Calls has sequences of calls.
--   Multicast src/multicast.c: sockets for multicast, with the families of Socket, addresses of
--             Address and the calls of the system as a record. Multicast/Ways has the ways in which
--             make_multicast can end.
-- Base has what all share: names of the standard library, Boolean tests, lemmas on lists and bits,
-- and blocks of memory. Each part has its definitions in the file of its name, and its proofs and
-- test runs in the folder of its name.
--
-- How C is modelled. A block of memory is a list of bytes, and a pointer to its start is `to block`;
-- `null` is NULL. An access out of the block makes the result `none`, so a theorem that a result is
-- `some` also says that no access leaves the block. A function that writes returns the block as it
-- leaves it. A character is its unsigned byte. Unsigned numbers wrap at their width where the code
-- can reach it; size_t has 64 bits, and lengths of real blocks are below 2 ^ 64. Signed results are
-- the integers of Base/Int, without a bound where the code only compares them or returns them; in
-- Sync, where it computes with them, an operation that overflows a `long` makes the result `none`.
-- `malloc` is a parameter that gives a block of the size asked for, with arbitrary content, or NULL.
-- `strchr`, `strcmp`, `strcasecmp`, `toupper` and `tolower` of the C library are used as in the C
-- locale.
-- The mutex of a pipeline makes a pass atomic, so the order of passes is the order of the threads.
--
-- Fuel: a byte has at most 8 bits, so 9 passes end the loop that counts them; draining a pipeline
-- of `count` pointers takes `count` passes and one to see that it is empty; a put takes two passes;
-- cutting the head of a text takes at most as many passes as the block has bytes; loading a keyfile
-- takes at most as many as the file has bytes, and so does scan_file; the fuel of cpr_lgetbuf is an
-- argument, since its loop may not end.
--
-- Not modelled: what the operating system does behind a descriptor, a clock or a file, which is a
-- parameter where a function here calls it; the Windows branches, but for getline; the contents of
-- condition variables' wait queues, but for the shared lock's in Thread/Wakes; and the parts of src/
-- that have no file here.
pub mod Base
pub mod Endian
pub mod Memory
pub mod Bitset
pub mod Pipeline
pub mod Strchar
pub mod Thread
pub mod Memio
pub mod Strtype
pub mod Mempager
pub mod Bufio
pub mod Keyfile
pub mod Sync
pub mod Socket
pub mod Address
pub mod Events
pub mod Multicast
pub mod System
pub mod Service
