-- ===== src/Lib.antt =====
-- ConcurrentServer: a chat server in C that starts one thread for each connection.
--
-- The program. A client connects over TCP; the accept loop of server.c makes a thread block for it
-- (data_structs/thread_info_block.c) and starts connection_handler (connect_handler.c) in a thread.
-- The handler reads packets from its socket (data_structs/packets.c), registers and authenticates
-- its user against MySQL, and routes messages and places. A user who is online is found through the
-- address table (data_structs/addr_table.c), which maps the id of a user to the thread block. A
-- packet for another user is put into the queue of that user's block (libs/queue.c), and that user's
-- own handler takes it from there and sends it. libs/generic_linked_list.c is the list that holds
-- the thread ids.
--
-- The files.
--   Base           shared names; numbers with the readings of a C `int` and `unsigned`; results that
--                  may be a fault; commands on a state
--   Heap           a memory of nodes at addresses; Heap.Seg: linked segments in it; Split, Inside and
--                  Datum: a segment cut in two, a node in the middle of one, and the datum at an address
--   Queue          libs/queue.h and libs/queue.c: QueueNode, GenericQueue, create_queue, empty,
--                  enqueue, dequeue, destroy_queue. Refine: one call of each; Fifo: calls in any order
--   GenericList    libs/generic_linked_list.h and libs/generic_linked_list.c, with the function
--                  names of the C code. Push and Pop: the two ends; Append: append_list_node; Unlink,
--                  RemoveHead, Remove and Gone: destroy_list_node; Destroy: destroy_generic_list
--   Iterator       libs/iterator.h and libs/iterator.c, with the function names of the C code; its
--                  static variables are the record Iterators. Ring, Walk, Find and Remove: the
--                  theorems on link_iterator, move_forward and remove_iterator (find_prev is its loop)
--   Recyclable     data_structs/recyclable_fields_array.h and data_structs/recyclable_fields_array.c, with
--                  the function names of the C code. Laws: what they rely on; Pool: takers of fields
--   AddrTable      data_structs/addr_table.c: binary_search, insert_in_addr_table
--                  (insertInAddrTable), get_addr_from_addr_table (getAddrFromaddrTable),
--                  remove_from_addr_table (removeFromAddrTable)
--   Locks          the mutexes: threads as lists of what they do with them, in any order. Programs: the paths
--                  of the handlers through pthread_mutex_lock, pthread_mutex_unlock, list_lock_acquire and
--                  list_lock_release; Discipline and Handlers: what the mutexes then give
--   Text           what the server uses of the C library's strings: atoi, strtok_r, snprintf,
--                  strcpy, strncpy and the formats %d and %s, as the C standard describes them. Printf: what a
--                  format prints, with which theorems state the queries and the line of the log
--   Packets        data_structs/packets.h and data_structs/packets.c: Packet, packet_to_string,
--                  string_to_packet and the setters
--   ThreadBlock    data_structs/thread_info_block.h and data_structs/thread_info_block.c
--   ErrorLog       error_logs/errno_logs.h and error_logs/errno_logs.c: log_errors, server_msg
--                  (SERVER_MSG), init_logs_object, over lists of the lines written
--   ConnectHandler connect_handler.c. World: the memory of blocks and packets, the address table,
--                  the database, and what was sent, closed and logged. Account: registrator,
--                  authenticator, authenticate_user, register_new_user. Messages and Location: the
--                  cases of interpret_packets. Loop: its switch (dispatch), and connection_handler.
--                  Frame: what a relation between two worlds needs in order to hold of all that a
--                  handler does; Isolation, Sound and Survival are such relations, for the messages
--                  sent, for the table with the user ids, and for the other blocks. System: the
--                  turns of all handlers over one world. Progress: the turns at a queue. Relogin:
--                  two log-ins of one connection. Race: a receiver that leaves during a delivery
--   Server         server.h, server.c and main.c: set_net_data, set_mysql_data, main, and the start of
--                  make_server (start, prepare_database). Accept: its accept loop and shutdown with
--                  the list of thread ids, init_connection_handler of connect_handler.c, and the
--                  part of destroy_thread_node that works on that list (destroy_block), which is the
--                  only part of a clean-up that this module has: that of the address table and of
--                  the queue is in ConnectHandler. Start,
--                  Connecting, Early and Shutdown: the theorems on them. Traffic: the accept loop and
--                  the threads of all clients, in any order, as a step relation; Consistent, Coming,
--                  Registering, Rounds and Safe: an invariant of it; Ending: the shutdown after it
--   Examples       the theorems on concrete inputs, and runs
--
-- The model. `fault` is undefined behaviour of C: an access through NULL, to freed memory, out of an
-- array, or past a buffer. The result of each `malloc` is an argument, but that in
-- ConnectHandler those in enqueue and packet_to_string succeed; in the heaps it is an address that was not
-- in use. The MySQL library, the clock, the floats and what unwritten memory
-- reads as are the record `Env` of ConnectHandler.World, with no hypothesis but those that a theorem
-- names. A packet in a handler's queue is its address, and the queue is the list that Queue.Refine
-- gives for it.
--
-- Fuel and bounds. `binary_search` runs on fuel `addrTable_len + 2`: its interval starts with
-- `addrTable_len + 1` fields and gets smaller in each round. The loops that destroy a queue or a list
-- remove a node in each round, and need one round more than there are nodes. `shutdown_loop` of Server.Accept
-- ends or faults within its first round. `remove_loop` and
-- `insert_loop` count down. `find_prev` goes around a ring, and its fuel is a number of rounds that is at
-- least the number of nodes. The address table has 100 fields. `list_len` of a list is an `int` in the
-- source and a number without a bound here, which is the same below 2^31 nodes. Texts are lists of bytes without the
-- final 0.
--
-- Not modelled. ConnectHandler has no mutexes: its handlers interleave by the parts of a round (the read
-- of the socket, the turn at the queue, the test of the cancellation, the clean-up), and but for Race
-- it says nothing of two handlers that interleave within one part: so a log-in, with its lookup and its
-- insertion, is never overtaken by another, although the source holds no mutex over the two. Locks has the mutexes without the
-- data that they guard, and neither that of the log nor the main thread, which uses the list of thread
-- ids without its mutex. Cancellation takes effect at the test at the end of a round only, not within
-- calls of the MySQL library. The debug output of server_debug, and the
-- attributes of the threads. In Server.Traffic no thread but the new one takes a step within a round
-- of the accept loop. The type normal_queue of
-- data_structs/recyclable_fields_array.c, which no header declares, is a parameter, and Recyclable.Laws
-- says what the theorems ask of it: a queue of numbers, first in first out. This file and
-- libs/iterator.c are modelled, but they are not built and nothing calls them.
pub mod Base
pub mod Heap
pub mod Queue
pub mod GenericList
pub mod Iterator
pub mod Recyclable
pub mod Locks
pub mod Text
pub mod AddrTable
pub mod Packets
pub mod ThreadBlock
pub mod ErrorLog
pub mod ConnectHandler
pub mod Server
pub mod Examples
