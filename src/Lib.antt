-- ===== src/Lib.antt =====
-- The core data structures of CloudEagle: the messages between user space and the kernel module,
-- the codec of the utility library, its hash map, the message queues in shared memory, and the
-- kernel module's dispatch of commands.
--
-- The program's parts and how they interact. The kernel module under cwaf/ takes netlink messages
-- and calls the command that each names (cwaf/csp_kernel_manager.c); the body of one is read and
-- written through a `struct csp_record` (cwaf/csp_kernel_record.c). User space uses the utility
-- library under ce_util/: the codec of ce_data_writer.c and ce_data_reader.c, which writes the
-- same format through tables of operations, containers such as ce_map.c, and the queues of
-- ce_ipc_shm.c, through which processes pass records in shared memory: a writer puts framed
-- records into a block with the codec, publishes a full block to the readers registered then, and
-- takes a free one; a block that every reader has read is collected. A record and a codec work on
-- memory that their caller provides.
--
--   Common    Boolean tests, lists measured by native numbers, byte-addressed memory (`store` is
--             memcpy, `load` reads bytes, `strlen` and `c_string` read C strings).
--   Value     VALUE_APPEND and VALUE_GET of cwaf/csp_kernel_record.c, which are also VALUE_WRITE
--             and VALUE_READ of ce_util/ce_data_writer_encoding.c and
--             ce_util/ce_data_reader_encoding.c; the bits of floating point numbers.
--   Record    cwaf/csp_kernel_record.h and cwaf/csp_kernel_record.c: `CspRecord` is the cursor,
--             `Append` and `Get` have the functions record_append_* and record_get_*, under their
--             names. `Calls`, `Message` and `Reading` write sequences of calls as lists. `Wraps`
--             is about sizes for which a sum wraps around.
--   Codec     ce_util/ce_data_wrapbuf.h and the files ce_util/ce_data_writer.c, ce_data_reader.c,
--             ce_data_writer_encoding.c and ce_data_reader_encoding.c: `Dispatch` has the
--             functions that call through a table, `Write` and `Read` the implementation of the
--             tables.
--   Map       ce_util/ce_map.h and ce_util/ce_map.c: `CeMap` is the map; `Change` has the
--             functions that change it. `Probe` and `Walk` are about the order of the slots,
--             `Search` about what a search finds, `Table`, `Put` and `Count` about well-formed
--             tables, `Room`, `Copy`, `CopyLoop` and `Resize` about the growth of one, `Update`,
--             `Insert`, `Delete`, `Refinement` and `Runs` about what the map binds, `Faults`
--             about wrong uses.
--   Buf       ce_util/ce_buf.h and ce_util/ce_buf.c: a buffer that hands out blocks of a memory;
--             `Pushes` is about where they stand.
--   Manager   cwaf/csp_kernel_manager.h and cwaf/csp_kernel_manager.c: a list of `Family` is the
--             list of registered families; `kmannetlink_rcv_skb` finds the command of a message
--             and calls it with a record, that is, it uses `init_record` of Record.
--   Ipc       ce_util/ce_ipc_shm.h, ce_util/ce_ipc_shm.c and ce_util/ce_data_record.h: `Shared`
--             is one queue, with the headers of its blocks at their offsets. `Blocks`, `Readers`,
--             `Write`, `Read` and `Create` have the functions, under their names. `Chain`,
--             `Removal` and `Parts` are about the two lists of blocks, `Collect` and `Sweep`
--             about the collection, `Invariant` about well-formed queues, `Room`, `Take`, `Find`
--             and `Dead` about the block that a record goes to, `Writing` and `Record` about its
--             bytes, `Reading` about reading them, `Accounting`, `Collectable` and `Published`
--             about who has read a block, `Tiles` and `Sizes` about a new queue. `Timeout` has
--             the publication of blocks that are not full, by the thread that looks for them and
--             by a process that ends, `System` the steps of several processes, `Joining`,
--             `Steps`, `Interleaved`, `Unwritten` and `Race` what their orders lead to; `Leaving`
--             is about the loop over the queues, `Table`, `Adding` and `Lost` about the table of
--             readers.
--
-- How code becomes definitions. A value of a w-bit type is its two's complement pattern, with the
-- wrap-around written out. A pointer is an address, a NULL pointer 0, and memory a function from
-- addresses to bytes, of which those below `mapped` can be read. A function that changes an
-- object gives the object back. A call that fails gives a result for each way to fail: -1 or
-- NULL, or an access that is not allowed (`fault`, or `none` in the codec and the map, where it
-- is also a failed assertion). The bytes of a number are read whether or not they are mapped.
-- What C leaves undefined in the shift of an int by 32 or more is an argument `wide_shl`. Whether
-- malloc gives memory is a Boolean argument, and the calls of a callback are returned. In a queue
-- of shared memory a block is named by its offset, and 0 is NULL; whether zmq_send succeeds, the
-- time and the processes that exist are arguments, and the notices sent are a list.
--
-- Bounds and fuel. `strlen` gets as fuel the bytes that can be read from the address on, so that
-- it runs out of it only where the C function would read memory that is not mapped. A search of
-- the map gets as many looks as there are slots and seven more, which is enough as long as one
-- key is NULL: after seven steps the perturbation is zero, and then each slot is met once in as
-- many steps as there are slots. The loop that finds a table's size gets 30 turns for at most 27
-- doublings. Theorems on messages ask that the memory ends 2 ^ 33 bytes before the address space
-- does, so that a position plus a 32-bit length does not wrap around; those on the map ask for at
-- most 2 ^ 25 values, to which limit a table's size in bytes is an int. The search of a command
-- is given as many turns as its 16-bit index has values. A loop over the blocks of a queue of
-- shared memory gets more turns than there are blocks; such a queue is shorter than 2 ^ 31 bytes,
-- since the code holds offsets in an int.
--
-- Not modelled: the set-up of netlink in the kernel manager, the containers besides the hash map
-- and the bump buffer, the locks and threads of the queues, the wrappers of system calls, threads
-- and shared memory, and the copies of other projects' code (Linux forwarding tables and VLAN
-- driver, APR, nginx and Apache files, libjson, Wireshark). The `expand` callback of a codec's
-- buffer is called nowhere. A map and a record have one user. The steps of processes that share a
-- queue are whole functions, or the two halves of a write: the writer's read of `cur_w_dbk` and
-- its exchange, for one, are a single step.
pub mod Common
pub mod Value
pub mod Record
pub mod Codec
pub mod Map
pub mod Buf
pub mod Manager
pub mod Ipc
