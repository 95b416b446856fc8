-- ===== src/Lib.antt =====
-- Verification of an operating-systems project in C++: a thread library, a
-- file server and a pager.
--
-- The thread library, `threadlib/`, runs user threads on several cpus. Every operation takes the
-- one guard of the library, so an operation up to its transfer of control is one step. A thread
-- is the number of its address, 0 is the null pointer, a cpu is a number, and queues are lists.
--   Threadlib/System.antt     cpu.h, constants.h, utils.cpp: the state, `push_and_signal`,
--                             `wait_and_pop`, `wait_for_ready_thread`, `create_thread`
--   Threadlib/Mutex.antt      mutex.cpp: `lock`, `unlock`
--   Threadlib/Cv.antt         cv.cpp: `wait`, `signal`, `broadcast`
--   Threadlib/Thread.antt     thread.cpp: `yield`, `join`, and `finish`, the end of a thread in
--                             `func_with_swap`
--   Threadlib/Schedule.antt   the machine: any cpu makes the next call
-- `swapcontext` and `setcontext` are not modelled but as the value in which an operation ends.
--
-- The file server, `filesys/`, is a tree of inodes on a disk of 4096 blocks. A request is a function
-- from the state of the server to an outcome (it returns, throws, or stops the process) and a new
-- state. One request is modelled alone; other requests between its steps are not. What leaves the
-- request no way on stops the process here: a failed assertion, a read out of bounds, a `strcpy`
-- behind the end of its array, and a request for a lock that the request has itself in a mode that
-- excludes the new one. The disk is code outside the repository, so it is a parameter with the laws of
-- reading and writing.
--   Filesys/Types.antt, Disk.antt, Monad.antt   fs_param.h, fs_server.h, utils.h, file_system.h
--   Filesys/Locks.antt        file_system.cpp: `lock_inode_read` … `unlock_inode_write`
--   Filesys/Path.antt         `get_parent_dir`, `get_target`, the names of a path
--   Filesys/Lookup.antt       `find_next_inode`, `find_parent_inode` and their kin
--   Filesys/ReadWrite.antt    `handle_read`, `handle_write`
--   Filesys/Request.antt      network_server.cpp: `parse_message`, `is_valid_pathname`
--   Filesys/Server.antt       network_server.cpp: `handle_read` … `handle_delete`, less the sending
--   Filesys/Message.antt      network_server.cpp: `receive_message`, `send_message`, and the loops that
--                             move a block
--   Filesys/Connection.antt   network_server.cpp: `handle_request` and the whole handlers, from the
--                             bytes that a client sends to the bytes that it gets
--   Filesys/Search.antt       file_system.cpp: `find_free_blocks` and the constructor
--   Filesys/Create.antt, Delete.antt   `handle_create`, `handle_delete`
-- A socket holds the bytes that the client will have sent, and what the network chooses: how many
-- bytes each call of `recv` and `send` moves, and which `send` fails.
-- Most loops run over lists or over the number of blocks of an inode, so no fuel is needed. The
-- loops of `send` and `recv` have a round for each byte, since each moves at least one, and the
-- search for free blocks has one for each inode and one more. Numbers of 32 bits wrap where the code
-- counts (the lock counts).
--
-- The pager, `vmpager/`, gives the pages of a physical memory to the virtual pages of processes. A
-- mem_block is named by a number, its address, and `zero_page` is 0; a pointer to a page table entry
-- is a process and a place. An operation is a function from the state to a result and a state, or
-- stops, as a failed assertion does and here also what C++ leaves undefined (the front of an empty
-- queue). The content of pages and the files are the infrastructure's, and a parameter.
--   Vmpager/Api.antt          vm_pager.h: what the infrastructure gives
--   Vmpager/State.antt        utils.h, vm_pager.h: blocks, page table entries, processes, the queues
--   Vmpager/Address.antt      vm_arena.h, utils.cpp: `addr_to_index`, `index_to_addr`
--   Vmpager/Evict.antt        utils.cpp: `evict_phys_page`
--   Vmpager/Faults.antt       utils.cpp: `read_fault_handler`, `write_fault_handler`, permissions
--   Vmpager/Cache.antt        `cache_nonresident_page`, `copy_block_handler`, `vm_fault`
--   Vmpager/Process.antt      `vm_init`, `vm_create`, `vm_switch`, `vm_destroy`
--   Vmpager/Map.antt          `vm_map`, `read_filename_str`
-- The loop of the clock algorithm has one round more than the queue is long, since every block that
-- is passed loses its reference. The loop of `read_filename_str` has one round more than the arena
-- has bytes, since behind the arena no page is valid.
--
-- The pizza program, `testapp/`, matches customers and drivers. Testapp/People.antt models them,
-- customer.cpp and driver.cpp, and Testapp/Match.antt the choice of a nearest pair, utils.cpp.
-- Testapp/Shop.antt models main.cpp: the threads `run_driver`, `run_customer` and
-- `run_pizza_manager` make steps on the shared objects, each from the time that the thread takes
-- `pizza_lock` to the time that it waits or gives it back. Testapp/Shop/Deals.antt is the protocol of
-- drivers and customers without their threads. The loop of a
-- customer has two rounds more than the customer has requests, since every round but the last
-- takes one or ends the thread.
--
-- The child modules of a part hold its theorems; Examples.antt of each tree and Filesys/RamDisk.antt
-- show that their hypotheses can hold. Prelude.antt has what the parts share.
--
-- Not modelled: the start of a cpu and contexts, waiting for an inode's lock that another
-- request has, the listening socket and the threads of the file server, and in `testapp/` the
-- arguments, the files and what is printed.
pub mod Prelude
pub mod Threadlib
pub mod Filesys
pub mod Testapp
pub mod Vmpager
