-- ===== src/Lib.antt =====
-- The systems programs of the repository: allocators, paging and address translation, threads, and the
-- file servers with their clients, and what they keep and break. Most parts stand alone in C; a client
-- and a server meet in their messages.
--
-- PracticumV2/main.c simulates virtual memory: every line of an input file is a logical address,
-- which the TLB, then the page table, then a backing store turn into a byte.
--   Tlb          the TLB: `tlb_fifo_insert`, `tlb_lru_insert` and `get_oldest_entry` are tlbFIFOinsert,
--                tlbLRUinsert and getOldestEntry, `create_vm_table` is createVMtable, `lookup` the
--                search of translateAddress. The loops over the table are `repeat_from` and
--                `find_from` of Prelude.
--   Translation  translateAddress (`translate_address`), readFromStore, the masks (mymalloc.c of that
--                folder) and the loop of main (`translate_all`). `Vm` holds the globals of main.c. The
--                store is the parameter `Store`: its size, and its bytes by position.
--   VmHeap       the heap of that folder's mymalloc.c: init_heap and thread_safe_malloc; VmHeap/Client has
--                thread_safe_free, pm_put, pm_get, createVMtable's allocations and dramAllocate, VmHeap/Disk
--                the functions on files and pages. What the system calls answer are the parameters `Os`
--                and `Files`.
--                VmHeap/Reach is what calls lead to that use each header as what it is, with
--                VmHeap/Layout and VmHeap/Reached behind it.
--   SharedData   the counter shared_data of main.c, which four threads raise without a lock.
--   HeapThreads  thread_function, thread_func2 and the loops of main that create and join them, as steps
--                (`Step`) over the heap.
-- A7/malloc.c is a first-fit allocator over one arena.
--   FreeList     init, frag, pm_malloc, mergefrag and pm_free by their names, on a memory that holds a
--                `struct block` at each address. FreeList/Blocks is the same allocator on a list of
--                blocks, without memory: what it promises, which the refinement theorems tie to the C.
-- PracticumI/malloc.c has page flags, a page table with two searches for a page to replace, and a swap
-- file, beside an allocator like that of A7.
--   Paging       the flags, find_lru_page, replace_page, is_page_in_memory and init_page_table by their
--                names. Paging/Machine adds physical memory and the swap file: read_page, write_page,
--                access_page and load_page. Whether pread and pwrite succeed is the parameter `Disk`.
--   Split        its frag, over that of FreeList; `absorb` is the joining of a small rest.
--   PageHeap     its init, allocate_page and pm_malloc_lock. The calls of mmap are the parameter `Mmap`.
--                PageHeap/Blocks is the same on a list of blocks.
-- A8/malloc.c is the allocator of A7 under a mutex, and PracticumI/malloc.c has a variant of it.
--   Locked       pm_malloc_lock and pm_free_lock, with the uses of the list and of the mutex as events
--                (`Traced`).
-- Practicum has three small programs on memory.
--   VirtualMem       virtualmem.c: read_page and write_page over a page table and a swap file.
--   PageReplacement  pagereplacement.c: first-in first-out page replacement; `run` is its loop.
--   CustomHeap       vmemcustomheap.c: a heap that only grows, over the pages of the same memory.
-- A2/polybius.c is the Polybius cipher, and A2/cipher.c the program that runs it.
--   Polybius     generateTable (`generate_table`), pbEncode, pbDecode and the table look-ups. The values
--                of rand() are the parameter `rand`.
-- A3/queue.c is a linked list of processes, and A3/queuetest.c its test program.
--   Queue        makeQueue, enqueue, dequeue, dequeueProcess and qsize by their names, on a heap of nodes;
--                `run_queue` is the test program. Queue/Reach is what a client can reach.
-- A4/EzeokekeC.cs5600.S23.c runs five worker threads that fill an array under a mutex.
--   Workers      the steps of the threads as a relation (`Step`), and what they can reach in any order.
-- A5/multiprocess.c writes sentences and counts to files from groups of two threads.
--   Counting     start_counting as steps (`Step`); Counting/Rounds is the loop of main over the files,
--                Counting/Poem its sentences, and Counting/Punctuation what main writes for the word that
--                it reads. Both threads of a group stand at its start: one that main has not created yet
--                is one that has not moved.
-- PracticumIIV3 is a file server and its client.
--   Posix        the system calls as the parameter `Os`, which answers each call from the calls before;
--                `Action` is code that makes calls. CText has C strings and strtok.
--   Server       server.c: perform_info_command and perform_put_command. Server/Dispatch is what main
--                does with a request, Server/Serve its loop, Server/Handler client_handler.
--   Client       fgets.c: read_from_usb and the branches of main; Client/Main is main. Client/Asks puts
--                client and server together.
-- PracticumII is an earlier version of the two, without devices and threads.
--   EarlyServer  the main of its server.c, over the definitions of Server and Server/Dispatch, whose C
--                code is the same.
--   EarlyClient  its fgets.c, with GET and PUT of its own and the rest from Client.
-- PracticumIIV2 and PracticumIITest are two more versions, each with a main of its own.
--   FirstServer  the main of PracticumIIV2/server.c; FirstServer/Later compares it with EarlyServer.
--   FirstClient  PracticumIIV2/fgets.c, over the definitions of Client and EarlyClient.
--   TestServer   the main of PracticumIITest/server.c, whose array `response` is kept over the turns.
--   TestClient   PracticumIITest/fgets.c.
--
-- Numbers: a C integer is a natural number, and size_t and pointer arithmetic is written out modulo
-- 2 ^ 64. Where a theorem needs that nothing wraps its hypotheses say so (`small`, `request`).
-- Loops: the loops of FreeList run on fuel, one more than the arena has bytes; a block takes 24 bytes
-- at least, so the fuel never runs out, and the refinement theorems include that. The draws of generateTable
-- run on fuel, since no number of calls of `rand` need be enough: the theorems are on the runs that
-- return. The depth of access_page and load_page
-- is fuel too, and no fuel is enough, which is a theorem.
-- Outcomes: `fault` is a read or write through NULL, which ends the C program. `out_of_bounds` of TestServer
-- is a read or write past an array, and `none` of `pb_decode` a result that does not fit its buffer: what
-- C does behind these is not modelled.
--
-- What fread gives of a file is fixed when the file is opened, and a call of fopen that gives 0 is NULL.
--
-- The fuel of the loop of thread_safe_malloc is two more than the calls that allocate, since a call
-- adds one block at most; a run of HeapThreads has 76 steps, so 78 is enough there.
--
-- The loops of the servers and clients that send or copy a file have its length as fuel, one byte at
-- least goes in each round, and the loop of recv has the size of the array and one as fuel.
--
-- Not modelled: what is printed, the unlocking by main of A5/multiprocess.c of a mutex that it does not
-- hold, the clock, menus, the threads of PracticumIIV3 beside each other, the programs
-- that try the allocators (A7/main.c, A8/main.c, PracticumI/main.c), the conversions on double of A1,
-- the generated files, the copies of the cipher in A5 and Trial, and the drafts of Practicum/myA8.c and
-- Trial/testing.c.
pub mod CText
pub mod Client
pub mod Counting
pub mod CustomHeap
pub mod EarlyClient
pub mod EarlyServer
pub mod FirstClient
pub mod FirstServer
pub mod FreeList
pub mod HeapThreads
pub mod Locked
pub mod PageHeap
pub mod PageReplacement
pub mod Paging
pub mod Polybius
pub mod Posix
pub mod Prelude
pub mod Queue
pub mod Server
pub mod SharedData
pub mod Split
pub mod TestClient
pub mod TestServer
pub mod Tlb
pub mod Translation
pub mod VirtualMem
pub mod VmHeap
pub mod Workers
