-- ===== src/TcpReceiver/Start.antt =====
-- The receiver before and at the SYN.
use tcp_implementation.ByteStream
use tcp_implementation.StreamReassembler
use tcp_implementation.StreamReassembler.{StreamReassembler, push_on}
use tcp_implementation.TcpSegment.{TcpSegment}
