-- ===== src/Lib.antt =====
-- Verification of the data structures and storage programs of the IITM repository. Each modelled
-- program is a C file of its own; the programs share no state, and the development follows them
-- one by one.
--
-- Prelude holds the shared names: Boolean tests, lists and integers over the native numbers,
-- texts of C (Prelude/Texts), and fallible code in Option with its postconditions (Returns: no
-- fault and the property; Yields: the property if there is a result). SortedList is the abstract
-- view of the search trees, an ascending list of integers.
--
-- AvlTree models Trees/AVLTree.c: `struct node *` is Tree, NULL is `leaf`, a read through NULL
-- is `none`; insert, deleteNode (delete_node), rotateLeft, rotateRight, findMin keep their
-- names, the ends of insert and deleteNode are rebalance and repair. AvlTree/Balance,
-- AvlTree/Insertion, AvlTree/Repair and AvlTree/Deletion hold the AVL invariant, AvlTree/Order
-- the keys, AvlTree/Menu the loop of main, AvlTree/Height the bound on the depth. Values are
-- integers of any size; heights are natural numbers.
--
-- MedianFinder models LEETCODE PROBLEMS/mediandta.c, the same tree with counters of duplicates
-- and sizes. MedianFinder/Erase relates it to AvlTree by forgetting the counters,
-- MedianFinder/Items and MedianFinder/Select treat the items and kth, MedianFinder/Spec the
-- median. A `double` that the code returns is a whole number or half of one; a sum of two values
-- that is no `int` is a fault.
--
-- PageManager models TASK/24-10-2025/pages_memory_manager.c: the table is a list of pages; the
-- typed integers are in ℤ, and the only sum of them that can overflow, in free_pages, is a
-- fault. PageManager/Search, PageManager/Update and PageManager/Menu hold the proofs.
--
-- MemoryPool models MemoryPool/memoryPool.c: the list of block headers in address order, with
-- addresses as offsets into the pool and size_t arithmetic modulo 2 ^ 64. MemoryPool/Tiling has
-- the invariant that the blocks cover the pool without overlap and that free neighbours are
-- merged; MemoryPool/Allocate, MemoryPool/Release and MemoryPool/RoundTrip the operations.
--
-- PageCache models week 8/Page cache/pageCahe.c: one step per request for each of simulateLRU,
-- simulateClock and simulateARC, over any list of pages. PageCache/Frames has findPage,
-- PageCache/Oldest, PageCache/Lru and PageCache/LruRun the LRU simulation, PageCache/Clock the
-- Clock simulation, PageCache/Replace, PageCache/Arc and PageCache/ArcRun the ARC simulation.
-- The `while (1)` of the Clock hand has four rounds of fuel, which are enough since each round
-- but the last clears one of three bits.
--
-- CrashRecovery models FILEIO/CrashRecovery/crashRecovery.c: the records of the mapped file, the
-- write-ahead log as a list of whole entries, insert_record, the crash between the two, and
-- recover_from_wal. System calls succeed; ids do not overflow `int`; a checksum is the number
-- whose hexadecimal digits the code compares; names are texts of at most 31 bytes.
-- CrashRecovery/Apply has apply_to_database, CrashRecovery/Recover the recovery.
--
-- HashTable models HashTable/hashTable.c: ten chains, each the list of its nodes; keys are
-- texts, the bytes before the terminating zero, and the hash is taken modulo 2 ^ 32. A use of a
-- node that insert has freed is a fault. HashTable/Chain treats one chain, HashTable/Table the
-- whole table.
--
-- LruCache models LEETCODE PROBLEMS/lrucache.c: the nodes of the doubly linked list stand on a
-- heap, a partial function from addresses, and the sentinels head and tail are two of them; an
-- entry of a chain holds the address of its node. A read or a write through an address without a
-- node is a fault, and so is a negative key whose hash is no index of the table. The address
-- that malloc gives to a new node is an argument of put, which has no node yet. LruCache/Links
-- has the segments of the list, LruCache/Moves moveToHead and removeTail, LruCache/Keys the
-- chains, LruCache/Spec the specification (keys and values in order of use) and the invariant,
-- LruCache/Get, LruCache/Value, LruCache/Evict and LruCache/Put the two operations, LruCache/Run
-- runs of calls and lRUCacheFree. The loop of lRUCacheFree has as many rounds of fuel as there
-- are nodes and one more, which are enough.
--
-- MemoryTracker models MemoryAllocation/memoryAllocation.c: the list of tracked nodes and the
-- log as a list of lines. What the C library returns during a call (whether fopen succeeds,
-- whether malloc has room for a tracker node, the address of a block) is an argument of the
-- call, and that malloc, calloc and realloc give a block apart from the held ones is a
-- hypothesis. MemoryTracker/Blocks and MemoryTracker/Calls relate the nodes to the blocks that
-- the program holds, MemoryTracker/Report is about CleanupTracker, MemoryTracker/Menu is the
-- loop of main with its array, and MemoryTracker/Pointers, MemoryTracker/Round and
-- MemoryTracker/Rounds are about it, where a write past the hundred pointers is a fault. Sizes
-- that main reads are natural numbers; only their product in TrackCalloc is taken modulo 2 ^ 64,
-- and the total of CleanupTracker.
--
-- QueryEngine models week 8/queryEngine/queryEngine.c: the four operators as functions on the
-- indices currentIndex and currentLimit, over a table that is an argument; QueryEngine/Scan and
-- QueryEngine/Rows compare what is printed with the rows of the city. The loop of filter_next
-- has one round of fuel more than the table has rows, that of projection_next one more than the
-- limit, which are enough.
--
-- ExpressionTree models week 8/Expression Tree/experssiontree.c: a node is a text with two
-- children, NULL is `leaf`; an `int` that overflows (in atoi too) and a division by zero are
-- faults, and a text of ten bytes or more is one in createNode. ExpressionTree/Printing reads
-- back the characters that inorder prints, by way of the tokens of ExpressionTree/Tokens;
-- ExpressionTree/Values compares evaluate with the value of an expression.
--
-- KeyValueStore models IPCs/SharedMemory/KeyValueStored/server.c: the store as a list of pairs
-- and the answer to a request, which is what sscanf makes of a line; clients come one at a time.
-- KeyValueStore/Lookup compares GET after SET with GET before.
--
-- BlockCache models MemoryAllocation/cache.c. BlockCache itself has the cache: the chains of the
-- hash table and the list by last use hold the entries, each with the address that malloc gave
-- it; malloc is an argument of cache_put, a function of the entries that are allocated when it
-- is called, after the evictions; sizes are modulo 2 ^ 64. The loop of cache_put has one round
-- of fuel more than the list has entries, which is enough when the bytes fit into the limit, and
-- no number of rounds is enough otherwise. BlockCache/Buffers has the pool of buffers,
-- BlockCache/Files read_block and write_block above both; the disk file (DiskFile) and the name
-- of a block are parameters, with the laws Laws and Names as hypotheses, and a product that
-- overflows `int` is a fault. BlockCache/Entries and BlockCache/Keys have the invariant that a
-- chain has the entries of its keys in the order of the list, BlockCache/Reads, BlockCache/Evict
-- and BlockCache/Put the operations of the cache, BlockCache/Idle those of the pool,
-- BlockCache/Disk, BlockCache/Steps and BlockCache/Run the file system against the disk alone,
-- BlockCache/Start a new file system. Locks and access times are left out, one thread runs at a
-- time, and writes to the disk succeed.
--
-- BplusTree models Trees/BplusTreeDy.c: insert, its splits (split_leaf, grow), printRange
-- (find_leaf, walk, scan), printTree and the loop of main keep their names. keys[j] stands
-- between child[j] and child[j + 1]; a leaf has an address, since `next` is the only pointer
-- shared, and a tree finds its leaf at an address. BplusTree/Placed holds the sorted insertion
-- into a leaf, BplusTree/Leaves the chain, BplusTree/Shape the order and the depth,
-- BplusTree/Insertion the recursion, BplusTree/Keys the loop of main, BplusTree/Range and
-- BplusTree/Walk the printing, with fuel for one step more than there are leaves.
--
-- SlidingWindow models LEETCODE PROBLEMS/SlidingWindowMaximum.c, with the part of the array
-- between front and back as a list, Brackets LEETCODE PROBLEMS/ValidParentheses.c, with the
-- stack as a list, and BloomFilter BloomFilter/BloomFilter.c, whose characters are bytes below
-- 128.
--
-- FilePool models FIleCache/bufferPool.c: a pointer to a buffer is its index, and FilePool/Lists
-- holds the list of free buffers.
--
-- All other loops are structural recursions. Printing is left out, except where what is printed
-- is the result. Programs that only exercise system calls (sockets, pipes, threads, files,
-- timers, exec) are not modelled, since they have no logic of their own apart from those calls.
pub mod Prelude
pub mod SortedList
pub mod AvlTree
pub mod MedianFinder
pub mod PageManager
pub mod QueryEngine
pub mod SlidingWindow
pub mod Brackets
pub mod BloomFilter
pub mod FilePool
pub mod MemoryPool
pub mod MemoryTracker
pub mod PageCache
pub mod BlockCache
pub mod BplusTree
pub mod CrashRecovery
pub mod ExpressionTree
pub mod HashTable
pub mod KeyValueStore
pub mod LruCache
pub mod Tests
