-- ===== src/Lib.antt =====
-- Course programs on computer systems: a cache simulator (cachelab/csim.c), the transposition
-- of a matrix (cachelab/trans.c), a queue of strings (cprogramminglab-handout/queue.c), bit
-- puzzles on integers and floats (datalab-handout/bits.c), a web proxy (proxylab/proxy.c) with
-- its cache (proxylab/cache.c), a web server (proxylab/tiny/tiny.c), a simple allocator
-- (malloclab/mm-naive.c), and a shell (shelllab/tsh.c) with its job list and its parser of
-- command lines (shelllab/tsh_helper.c).
--
-- Common: names that all modules share, from the libraries and from its children Tests
-- (Boolean tests on numbers), Lists (lists measured by native numbers), Bits (masks, powers of
-- two), Integers (signed integers and their conversions), Texts (C strings as lists of bytes,
-- with strcmp and strstr) and Heap. In Heap, code on C structs of one type is a function from
-- a memory, which maps addresses to structs, to a Run: `ended` with a value, `fault` at a null
-- or dangling pointer, or `endless` when its fuel is used up. What malloc returns is an
-- argument.
--
-- Cachelab.Csim: the simulator. A record per struct (CacheInformation, SetLine, CacheSet,
-- Cache), a function per routine (new_cache, evict, dirty_in_cache, get_tag, get_set_index,
-- add_line, run) and `csim` for what main makes of a trace. A pointer to a line is its index,
-- and the trace is the list of instructions and addresses that fscanf reads. Addresses and
-- tags are 64-bit words, with the wrap-around of a shift written out, and a shift that C
-- leaves undefined has no result. The theorem on csim bounds the cache by the int values of
-- the source and the trace by MIN, so that no counter overflows: below 10^8 accesses, each of
-- at most 2^30 bytes. Ideal holds the description that the simulator is compared with: per set
-- the blocks that are held, the most recently used first. The other children prove the steps:
-- Lines (search), Evict, Recency (time stamps and the order of use), Lru, Access, Dirty, Step
-- and Address. The parsing of the options, the reading of the file, the freeing of the cache
-- and the report on the screen are left out.
--
-- Cachelab.Trans: transpose_submit of trans.c, its row-wise scan and its scan in blocks of 8
-- for the size 32. A matrix is a function of its two indices, and each loop a recursion on the
-- rounds that are left, counted from the bounds of the source, so that no fuel is needed. The
-- elements are of any type. Cells has the lemmas on what each loop writes.
--
-- Malloclab: the allocator of mm-naive.c. The heap is its bytes and its end; headers are
-- numbers of eight bytes in it, and sizes are words below 2 ^ 64 with the wrap-around written
-- out. Whether mem_sbrk, which is not in the repository, can extend the heap is an argument.
-- Bytes has the lemmas on what is written and read, Blocks says how the blocks that were
-- handed out lie in the heap, Calls has what each call returns, and Reachable any sequence of
-- calls and of writes into blocks.
--
-- Programminglab.Queue: every routine of queue.c on a heap of list elements. The queue struct
-- is handed through by value, `none` is a null pointer to it, and a string is kept in its
-- element. A walk takes at most a round for each string. Chain says what elements stand for
-- (addresses and strings, in order), Split takes the last one off, and Insert, Remove, Reverse
-- and Refused have the routines. queue.h is not in the repository: the fields are those that
-- queue.c uses.
--
-- Proxylab.Cache: every routine of cache.c on a heap of doubly linked nodes, with the sizes in
-- size_t as they wrap around. The walks take fuel for the nodes and the null pointer behind
-- them. Linked says which blocks a list of nodes stands for; Search, Unlink, Remove, Add and
-- Free have the routines. Malloc and Calloc of csapp.c end the process when there is no
-- memory.
--
-- Proxylab.Request, Response, Doit and Threads: proxy.c. Request is read_request, with sscanf
-- and the string functions written out; a buffer that was never written is `none`, and so is
-- the result when one is read or written past its end. Response is send_response_to_client
-- over what rio_readnb returns. Doit is doit as one thread runs it, on the model of the cache:
-- look_up and keep_response are its critical sections. Threads is doit for all threads at
-- once, as a step relation over the stages of doit and the lock, which pthread_mutex_init
-- leaves unlocked, as its documentation says; Exclusion and Spinning say which threads can be
-- in the cache. A thread may stay in the loop of add_to_cache for good. The steps of Threads
-- leave out the data, which Doit has; main, send_request_to_server and the text of the error
-- pages are left out.
--
-- Proxylab.Tiny: the web server of proxylab/tiny/tiny.c from `serve` down. A connection is
-- what was sent on it and the number of writes. Library holds what the C library and the files
-- give: the results of rio_writen, stat, open with mmap, and the output of a program. The
-- lines of the client are a list that ends where rio_readlineb fails; a file size is converted
-- to int and back as the source does. Texts has parse_uri and the texts of requests and
-- responses, Uri which files a URI can name, Responses and Serve the shape of all responses,
-- and Files a whole request. IsWorking names what is relied on: writes succeed, and files are
-- given in full. main and the output on the terminal are left out.
--
-- Shelllab.Jobs: the job list of tsh_helper.c, one function per routine. The static variables,
-- the signal mask and the flag of the initialization are the record Jobs; a routine that may
-- end the process returns an Outcome, `ok` or `stop`. Table, Invariant, Add, Delete and States
-- have the lemmas on the array and its routines. In a valid list live entries have their own
-- job number and a positive pid, at most one is in the foreground, nextjid is above every live
-- one.
--
-- Shelllab.Parse: `parseline` of tsh_helper.c. Texts are lists of bytes without the
-- terminating 0, and the pointers that cut the buffer into tokens are the tokens. The loop
-- runs on fuel, one round for each byte and one more (Termination). RoundTrip and Commands are
-- about lines that are written out from words and redirections.
--
-- Shelllab.Tsh: the parent side of tsh.c. The shell is the job list, the signals that were
-- sent to process groups and the messages that were printed. The three signal handlers, the
-- wait for the foreground job, bg and fg, and eval are functions on it; what fork, waitpid and
-- sscanf return, and the signals that arrive during a wait, are their arguments. A wait over
-- finitely many signals ends as `done`, or as `waiting` for another one. Line puts eval on the
-- text of a command line. Jobs, Parse and Tsh meet there: eval parses the text, adds the job,
-- and waits for the handlers to take it out of the foreground. The children are Reap
-- (SIGCHLD), Signals (SIGINT and SIGTSTP), Waiting, Builtins, Line, and Returns and Reachable
-- on the loop of main, as a relation that interleaves command lines with signals. A signal is
-- handled where the mask lets it: in sigsuspend, and between two command lines; the time in
-- eval before the mask is set, and the child behind fork, are left out, as are the setting up
-- of main and the redirection of files.
--
-- Datalab.Floats: floatScale4 and floatIsEqual of datalab-handout/bits.c on bit patterns,
-- numbers below 2 ^ 32. Value says which float a pattern stands for, a value being counted in
-- units of 2 ^ -149. Order has the order of the patterns and their values, and Scale and Equal
-- the two functions.
--
-- Datalab.Words, Puzzles and References: the eleven puzzles of bits.c on long integers, and
-- for each the function of datalab-handout/tests.c that the driver compares it with. A `long`
-- is a word, a number below 2 ^ 64; Words has the operators of C on words, where sums and
-- shifts to the left wrap around and shifts to the right copy the sign. A loop of a reference
-- is a recursion on the rounds that are left, 64 or 32 as the source counts them, and the loop
-- of leastBitPos makes at most one round for each bit. Common.Bitwise has what the native
-- operations make of single bits and of fields. Signed, Patterns, Positions, Count and
-- Palindrome compare the puzzles with their references; Shifts has the shifts under masks, and
-- Mirror and Reverse the exchanges of fields, as a table of the 64 positions.
--
-- Not modelled: the timing library of the allocator (malloclab), floatUnsigned2Float and the
-- driver of the bit puzzles (datalab-handout), the driver of the queue (harness.c, console.c
-- and report.c of cprogramminglab-handout, which work by input and output and setjmp), the
-- older variant of the web server (proxylab/tiny/tiny-static.c), the library csapp.c of the
-- course textbook, whose results are arguments here, and the drivers and test programs that
-- come with the course.
pub mod Cachelab
pub mod Common
pub mod Datalab
pub mod Malloclab
pub mod Programminglab
pub mod Proxylab
pub mod Shelllab
