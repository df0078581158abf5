-- ===== src/Lib.antt =====
-- urdma: a software implementation of RDMA verbs (iWARP) over DPDK.
--
-- The program is a user-space verbs driver (src/liburdma), a daemon that owns the network port
-- and hands out queue pairs (src/urdmad), a kernel module for the connection manager (src/kmod),
-- and sample programs. This library models the driver from the calls of its user to the frames on
-- the wire: src/liburdma/interface.c, with the structures of src/liburdma/interface.h,
-- include/urdmad_private.h, include/proto.h and include/proto_trp.h and the heap of
-- src/util/binheap.c, that is all that one pass of kni_loop does to one queue pair; and of
-- src/liburdma/verbs.c the verbs by which the user posts requests and polls completions. Of the
-- kernel module it models src/kmod/cm.c, which sets up and ends connections.
--
-- The parts, from the bottom up, and how they interact:
--   * Serial: serial_less_32, serial_greater_32. BinHeap: src/util/binheap.c.
--   * Proto, Proto.Headers: the structs and constants of the headers, read from and written to
--     bytes in network byte order.
--   * Trp: struct ee_state and struct pending_datagram_info. Trp.Receive is the part of
--     process_data_packet that the packet sequence number decides; Trp.Window states what a
--     receiver should do on numbers that never wrap.
--   * Host: what DPDK and the intrusive lists provide, as a record of functions, and the
--     documented laws that theorems use. Every function that calls them takes it as an argument.
--   * Qp: struct usiw_qp and what it owns, as one record that the functions pass on.
--   * Udp: flush_tx_queue, enqueue_ether_frame, prepend_*_header, send_udp_dgram.
--   * Transmission: send_ddp_segment, resend_ddp_segment, send_trp_sack, send_trp_ack,
--     send_trp_fin. Sack: process_trp_sack. Sweep: sweep_unacked_packets.
--   * Completion: the work queues and completion queues, post_recv_cqe, post_send_cqe, rq_flush,
--     sq_flush, try_complete_wqe. Region: the table of memory regions and the bounds test.
--   * Iov: memcpy_from_iov, memcpy_to_iov.
--   * Rdmap: do_rdmap_send, do_rdmap_write, do_rdmap_read_request, do_rdmap_terminate.
--   * Ddp: process_send (Untagged), the two sides of RDMA READ (Reads), process_terminate and
--     qp_shutdown (Failure), ddp_place_tagged_data (Placement).
--   * Packet: process_data_packet, which calls Trp.Receive, Sack and Ddp. Progress: progress_qp,
--     start_qp and the cases of kni_loop, which call all of the others.
--   * Verbs: src/liburdma/verbs.c. Recv and Send post requests, which the progress thread takes up
--     through the rings of the work queues; Accl is the accelerated interface; Poll reads the
--     completions that Completion posts; Regions registers what Region looks up; State and Create
--     are modify, query and destroy and the sizes of new queues. Session puts passes of the
--     progress thread and calls of the verbs in any order.
--   * Cm: src/kmod/cm.c and, of src/kmod/qp.c, the states of the queue pair (QpState). Messages
--     are the requests and replies on the wire; Handshake is the side that connects and what both
--     do when the daemon is ready, Passive the side that listens, Work the work handler and the
--     ends of a connection; Life puts the calls on an endpoint in any order. Cm and the driver
--     meet only through the daemon, which is not modelled.
--   * Consistent, in the modules of several parts: one invariant through all functions.
--   * Prelude: tests, lists and words that all share. Tests: the theorems at concrete inputs.
--
-- Loops and fuel. flush_tx_queue loops until the network card has taken all: one round for each
-- frame and one more, which is enough if the card takes at least one frame in each round. The
-- loops on the send ring have its size as fuel, which is the program's own bound. A checksum's
-- carries are folded 3 times at most. The sending loops have the bytes left as fuel, which is
-- enough for an MTU above 0; at an MTU of 0 the program does not end. The loop that posts the
-- completions of received messages has the active requests as fuel; if the completion queue is
-- full the program spins there, and the model stops. The heap's loops have its size.
--
-- Bounds. Machine words are natural numbers with the wrap-around written out where the program
-- computes with them. The pending array is a function from indices to pointer words and reaches
-- past its end, since process_trp_sack reads and writes there.
--
-- Left out: logging, locks (each function runs under the lock it takes), prefetches, the counts
-- of bursts, the call that tells the kernel of an error, and the release of a queue pair that no
-- one refers to. Of src/liburdma/verbs.c the creation and release of objects through libibverbs,
-- their reference counts, and the verbs that are not supported. Of src/kmod/cm.c
-- reference counts, sockets and their addresses, the allocation of work items and the endpoints
-- that siw_create_listen makes; the results of the socket calls are inputs. Not modelled:
-- src/liburdma/driver.c, src/urdmad, the rest of src/kmod, the configuration reader and the
-- sample programs.
pub mod Prelude
pub mod Serial
pub mod BinHeap
pub mod Proto
pub mod Trp
pub mod Host
pub mod Qp
pub mod Udp
pub mod Completion
pub mod Transmission
pub mod Sack
pub mod Sweep
pub mod Iov
pub mod Rdmap
pub mod Ddp
pub mod Packet
pub mod Progress
pub mod Region
pub mod Verbs
pub mod Cm
pub mod Tests
