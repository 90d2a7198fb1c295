-- ===== src/TcpSocket/Tests.antt =====
-- Bytes for the application of a connection over a TUN device.
use tcp_implementation.Base.{◌≡◌, ◌+◌, ◌<◌, refl, arith, false, [], ◌∷◌, none, some, u64_mod}
use tcp_implementation.ByteStream
use tcp_implementation.ByteStream.Inv.{IsValid}
use tcp_implementation.TcpSender
use tcp_implementation.TcpConnection
use tcp_implementation.TcpConnection.{TcpConnection}
use tcp_implementation.FileDescriptor
use tcp_implementation.FileDescriptor.{FileDescriptor, descriptor, register_read}
use tcp_implementation.TcpOverIp.{FdAdapterBase}
use tcp_implementation.Adapter.Tun.{tun_ops}
use tcp_implementation.TcpSocket.{TcpSocket, remaining_outbound_capacity, send}
use tcp_implementation.TcpSocket.Rules.{send_accepts}

abbrev adapter : FdAdapterBase
adapter = record {
  cfg = record {
    source = record { ipv4_numeric = 1; port = 4242 };
    destination = record { ipv4_numeric = 2; port = 80 };
    loss_rate_dn = 0;
    loss_rate_up = 0;
  };
  listen = false;
}

abbrev connection : TcpConnection
connection =
    TcpConnection.new
      (record { rt_timeout = 100; recv_capacity = 8; send_capacity = 8; fixed_isn = none })
      (record { raw_value = 7 })

abbrev socket : TcpSocket FdAdapterBase
socket = record {
  thread_data = descriptor 6;
  datagram_adapter = adapter;
  tcp = connection;
  outbound_shutdown = false;
  inbound_shutdown = false;
  fully_acked = false;
}

stream-IsValid : IsValid connection.sender.stream
unfolding TcpConnection.new TcpSender.new ByteStream.new
stream-IsValid = ground arith

written_fits : connection.sender.stream.bytes_written + 2 < u64_mod
unfolding TcpConnection.new TcpSender.new ByteStream.new
written_fits = omega arith

two_read :
    FileDescriptor.read (descriptor 6) (remaining_outbound_capacity connection) (some (1 ∷ 2 ∷ []))
    ≡ some (register_read (descriptor 6), 1 ∷ 2 ∷ [])
unfolding FileDescriptor.read TcpConnection.new TcpSender.new ByteStream.new
    ByteStream.remaining_capacity
two_read = refl

send_accepts_example :
    ((TcpConnection.write connection (1 ∷ 2 ∷ [])).1 ≡ 2)
    × ((s' : TcpSocket FdAdapterBase) × (send tun_ops socket (some (1 ∷ 2 ∷ [])) ≡ some s')
        × (s'.thread_data ≡ register_read (descriptor 6)))
send_accepts_example =
    send_accepts tun_ops socket (register_read (descriptor 6)) (some (1 ∷ 2 ∷ [])) (1 ∷ 2 ∷ [])
      stream-IsValid written_fits two_read
