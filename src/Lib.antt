-- ===== src/Lib.antt =====
-- Verification of the sponge TCP library (libsponge).
--
-- The library splits a TCP endpoint into a receiver, which hands the payloads of inbound segments
-- to a reassembler that writes them in order into a byte stream, and a sender, which cuts an
-- outbound byte stream into segments, keeps those in flight and retransmits them. A connection passes
-- each inbound segment to both, and stamps what the sender queues with the receiver's answer.
--
-- The files, and the code that each models (paths from the repository's root):
--   Base: shared names, tests, lists, std::map as a list of entries, and the wrap-around of size_t,
--     uint64_t and uint32_t.
--   WrappingIntegers: libsponge/wrapping_integers.hh and .cc. A WrappingInt32 is a record of its
--     raw value; wrap, unwrap and the operators are functions of the same names (operator- of two
--     values is `difference`, of a value and a number `minus`, operator+ is `plus`).
--   ByteStream: libsponge/byte_stream.hh and .cc. The fields of the record are the members without
--     their underscore; each method is a function from the stream to the new stream and its result.
--   StreamReassembler: libsponge/stream_reassembler.hh and .cc. `storage` is
--     temporarily_descrete_data_storage. push_substring is cut at its branches: `arrive` up to the
--     overlap, `resume` from gap_fixed on, `push_on` the recursion. `inspect` is one round of the
--     loop of missing_middle_handler, `scan` the rounds up to the next change, `middle_loop` the
--     whole loop.
--   Buffer: libsponge/util/buffer.hh and .cc. Elsewhere a Buffer or a BufferList is the bytes in it.
--   Parser: libsponge/util/parser.hh and .cc. `put_u8` and its kin are the methods of NetUnparser.
--   Checksum: InternetChecksum of libsponge/util/util.hh and .cc.
--   TcpSegment: libsponge/tcp_helpers/tcp_header.hh and .cc, tcp_segment.hh and .cc. `Wire` has
--     parse and serialize; those of the header end in _header, also in Ipv4 and Ethernet.
--   Ipv4, Ethernet, Arp: libsponge/tcp_helpers/ipv4_header, ipv4_datagram, ethernet_header,
--     ethernet_frame and arp_message, each .hh and .cc.
--   Address: libsponge/util/address.hh and .cc, IPv4 addresses only.
--   NetworkInterface: libsponge/network_interface.hh and .cc. The overloads of
--     make_and_send_ETHframe are `broadcast_arp`, `send_arp` and `send_ipv4`; recv_frame is cut at
--     its ifs (`recv_arp`, `learn`), and `recv_buffers` is recv_frame on a list of buffers.
--   Router: libsponge/router.hh and .cc, with AsyncNetworkInterface.
--   TcpOverIp: libsponge/tcp_helpers/tcp_over_ip.hh and .cc, with the base class of fd_adapter.hh.
--   Adapter: the adapters of libsponge/tcp_helpers: `Tun` and `Tap` of tuntap_adapter.hh and .cc,
--     `Udp` of fd_adapter.hh and .cc, `Lossy` of lossy_fd_adapter.hh.
--   FileDescriptor, EventLoop: libsponge/util/file_descriptor and eventloop, each .hh and .cc. What a
--     system call returns is an argument; `write` also gives the bytes that the calls took.
--   TcpSocket: the rules of libsponge/tcp_helpers/tcp_sponge_socket.cc. A rule's callback, interest and
--     cancellation are three functions.
--   StreamCopy: apps/bidirectional_stream_copy.cc.
--   Benchmark: the loop of apps/tcp_benchmark.cc, which joins two connections. `feed` is the loop that
--     writes into the connection, `exchange` what follows it.
--   NetworkSimulator: the hosts and the wires of apps/network_simulator.cc.
--   TcpReceiver: libsponge/tcp_receiver.hh and .cc.
--   TcpSender: libsponge/tcp_sender.hh and .cc. A queue is a list, its front first. `fill_round` is
--     one round of the loop of fill_window; the variable `seg` that all rounds share is passed on.
--     ack_received is `ack_loop`, which says whether the function returned in the loop, and
--     `after_ack`. `Reach` of TcpSender/Reach are the senders that sequences of operations lead to.
--   TcpConnection: libsponge/tcp_connection.hh and .cc, over TcpReceiver and TcpSender.
--     segment_received is cut after the receiver's call (`after_receiver`) and at its ifs; an
--     operation returns none where the receiver's reassembler does not return. `destroy` is the
--     destructor, `send_rst` and `abort` what it and tick do to give up. `Reach` of
--     TcpConnection/Reach are the connections that sequences of operations lead to.
--   TcpState: libsponge/tcp_helpers/tcp_state.hh and .cc, and state() of the connection. The strings
--     that name the summaries are constructors.
--
-- Bounds and fuel. Machine words are natural numbers with the wrap-around written out; theorems
-- that need it state that a counter does not wrap. `middle_loop` has fuel for one scan more than
-- there are stored datagrams, and a loop that is not done by then never is. push_on recurs on the
-- storage, since each inner call works on what is left of it. fill_loop has fuel for as many rounds
-- as there are buffered bytes, and every round reads one or more.
-- `feed` has fuel for one round more than there are bytes, and every round writes one or more.
-- The loop of InternetChecksum::value has fuel for two rounds, and ends within them; the
-- second loop of NetworkInterface::tick has any fuel, and its theorems say which is enough and when none
-- is.
--
-- Not modelled: system calls, threads, name resolution and printing (socket.cc, tun.cc, the thread and
-- the loops of the TCP socket, the other applications); the sharing of strings between buffers, which
-- nothing writes to; the undefined behaviour of iterators past the end of a string. `recv_buffers`
-- has the conversion of a frame's payload to one Buffer, which throws if there are several; elsewhere
-- a payload is parsed as its bytes, since what arrives from a device or a parser is one buffer. --begin() of a std::list followed by ++ is
-- taken as libstdc++ has it, the begin of the list.
pub mod Base
pub mod WrappingIntegers
pub mod Benchmark
pub mod ByteStream
pub mod StreamReassembler
pub mod FileDescriptor
pub mod EventLoop
pub mod Buffer
pub mod Parser
pub mod Checksum
pub mod TcpSegment
pub mod Ipv4
pub mod Ethernet
pub mod Arp
pub mod Address
pub mod NetworkInterface
pub mod Router
pub mod NetworkSimulator
pub mod TcpOverIp
pub mod Adapter
pub mod StreamCopy
pub mod TcpSocket
pub mod TcpReceiver
pub mod TcpSender
pub mod TcpConnection
pub mod TcpState
