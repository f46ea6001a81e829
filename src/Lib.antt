-- ===== src/Lib.antt =====
-- peer: a library that exchanges small messages between a host and its clients, in one order for
-- all of them, over packets that may be lost, repeated or reordered.
--
-- The program's parts (C, in source/peer):
--   options.h     constants, data offsets and status codes       Options and its child modules
--   serial.h      numbers and message headers as bytes           Serial
--   packet.h, .c  peer_pack, peer_unpack                         Packet
--   peer.h, .c    queue_append, queue_insert                     Queue
--                 peer_t; peer_init, peer_open, peer_queue,
--                 peer_connect                                   Peer
--                 peer_destroy, queue_destroy                    Peer/Destroy
--                 peer_input: a chunk                            Peer/Receive
--                 peer_input: slots and packets                  Peer/Input
--                 chunks_append_trail, queue_pack, heartbeats    Peer/Send
--                 peer_tick                                      Peer/Tick
--   cipher.h, .c  peer_cipher_init, peer_encrypt, peer_decrypt   Cipher
--   sockets.h     socket_t, blocking; calls of the system        Sockets
--   socket_pool.h, .c
--                 nodes, find_pool_node                          Pool
--                 resolve_address_and_id                         Pool/Resolve
--                 peer_pool_open, _connect, _destroy             Pool/Open
--                 peer_pool_tick                                 Pool/Tick
-- A host keeps a mutual queue of messages and a queue for each slot; a client keeps its messages in
-- the queue of its first slot. peer_queue appends to a queue. peer_tick moves what clients have
-- sent into the mutual queue, in order, and packs (peer_pack) what a slot has not been sent, with a
-- trail of older messages. peer_input unpacks (peer_unpack) packets that have come, and puts their
-- messages into a queue, each at its index (queue_insert). A socket pool gives a peer's ids their
-- sockets and addresses: peer_pool_tick receives packets, hands them to peer_input, calls peer_tick
-- and sends the packets that it gives. The child modules of a component hold its proofs. Peer/Log
-- states what a host promises over any sequence of calls, as an append-only log, and Peer/Delivery
-- follows messages from peer_tick and queue_pack over packets that are lost, repeated or reordered
-- to peer_input of the other side, both ways. Peer/Steady states what a host keeps over any sequence
-- of calls so that its next tick succeeds, and Pool/Session follows the port of a host's slot to the
-- client that is told it. Prelude holds what the components share: tests, faults, lists, integers,
-- bits.
--
-- How the code is modelled:
--   - An operation is a function from the state to the state after it, with the status code. A
--     status code is the bits of an int, joined by bit_or; KIT_OK is 0.
--   - The asserts of the source are compiled out, as in a build with NDEBUG. Where an assert has a
--     guard behind it, the guard is modelled, and its error is returned where a Debug build, which
--     the repository's workflow makes, aborts. Asserts without a guard abort there too on states
--     that the model goes on from: those of packet.c:27, 73 and 107 on every packet that is filled
--     to 385 bytes or more of its 400, that of serial.h:162 on data of more than 355 bytes, and that
--     of peer.c:386 on an address of more than 64. The guards on null pointers are not modelled,
--     outside of cipher.c: a pointer argument is a value.
--   - `none` as the result of an operation is a read or a write outside an array, or the sum
--     `index + 1` of queue_insert past the largest ptrdiff_t. A pointer into an array is
--     the list of the bytes from there on.
--   - The bytes of a message's data are read before queue_insert is called, where the source reads
--     them in it. This makes no difference for the chunks that peer_unpack gives, whose size field
--     is their length: where their header can be read, so can their data. For other chunks the
--     model gives `none` also where the source returns without storing the message.
--   - A ptrdiff_t or int64_t that may be negative (ids, actors, times, message indexes) is an
--     integer ℤ. Sizes of arrays and places in them are numbers ℕ. Bytes are numbers; what is
--     written to bytes is reduced modulo 256, and what is read from 64 bits is taken as signed.
--   - Memory is a parameter, the record Kit of Kit.antt: which arrays can be had, of how many
--     elements, and what new memory holds. Within one call of a peer_ function the same request has
--     the same answer; over a sequence of calls (Step of Peer/Log) each call has memory of its own.
--     An array that cannot be had is handled as the source does. The random number generator is a
--     parameter too (mt64 of the kit library).
--   - The system is a parameter too, the record Sockets of Sockets.antt. Its state, of a type of its
--     choice, is passed through every call that may change it. The pool uses the branch of
--     sockets.h for systems other than Windows; the other one is Sockets/Windows.antt.
--   - peer_destroy is modelled over a memory that tells which arrays of the peer are there. Reading
--     or releasing one that is not gives `none`.
--   - A pool is the list of its nodes. find_pool_node is told whether its address is one in the
--     nodes (`inside`), and the parameter `moves` tells whether a resize moves the nodes: the
--     result is `none` where an address of one byte or more is read after they have been moved.
--   - The receiving loop of peer_pool_tick, which adds nodes to the pool it goes over, runs on fuel,
--     2 * n + 1 rounds for n nodes: a node adds one more at most, which has no socket.
--   - The loop of peer_unpack over a packet runs on fuel, 400 rounds: every round moves on by at
--     least one byte of at most 400.
--   - Where the source has one function, the model may have one for each loop or branch of it.
--
-- Not modelled: the kit library, which the build fetches; the unit tests and the build scripts.
pub mod Prelude
pub mod Options
pub mod Serial
pub mod Kit
pub mod Packet
pub mod Queue
pub mod Peer
pub mod Sockets
pub mod Pool
pub mod Cipher
