-- ===== src/TcpSocket/Rules.antt =====
-- The rules of tcp_sponge_socket.cc: what they promise each other.
use tcp_implementation.Base.{
  ℕ, ◌+◌, ◌≤◌, ◌<◌, ◌≡◌, refl, true, false, ◌||◌, List, ◌++◌, Option, some, ◌==◌, length, min,
  arith, u64_mod, Bool-cases, Option-cases, inl, inr,
}
use tcp_implementation.ByteStream.{peek_output, pop_output, eof}
use tcp_implementation.ByteStream.Inv.{
  IsValid, accepted, write_lem, remaining_capacity-add-buffer_size,
}
use tcp_implementation.TcpConnection
use tcp_implementation.TcpConnection.{TcpConnection, end_input_stream}
use tcp_implementation.FileDescriptor
use tcp_implementation.FileDescriptor.{FileDescriptor}
use tcp_implementation.FileDescriptor.Transfer.{read-Reads}
use tcp_implementation.StreamCopy.Order.{InOrder, drain-InOrder}
use tcp_implementation.StreamCopy.{drain, done_some}
use tcp_implementation.Adapter.{AdapterOps}
use tcp_implementation.TcpSocket.{
  TcpSocket, inbound_stream, remaining_outbound_capacity, send, deliver,
}

-- The connection accepts whatever the limit of the read lets through.
pub write_accepts :
    (c : TcpConnection) (bytes : List ℕ)
    → IsValid c.sender.stream
    → c.sender.stream.bytes_written + length bytes < u64_mod
    → length bytes ≤ remaining_outbound_capacity c
    → (TcpConnection.write c bytes).1 ≡ length bytes
unfolding TcpConnection.write
write_accepts c bytes v fits room =
    let e = write_lem bytes v fits in
    let all : accepted c.sender.stream bytes ≡ length bytes =
      omega (arith, remaining_capacity-add-buffer_size v) in
    elim (Bool-cases (length bytes == 0)) [
      | inl empty ↦ rw empty (ground (arith, empty))
      | inr some_bytes ↦ rw some_bytes (rw e all)
    ]

module _ {A Input Output : Type 0} (ops : AdapterOps A Input Output) where
  -- Rule 2 does not throw for want of room: whenever the read from the application succeeds, the
  -- connection accepts all of its bytes. The outbound stream is well formed, and its count fits 64
  -- bits.
  pub send_accepts :
      (s : TcpSocket A) (f : FileDescriptor) (result : Option (List ℕ)) (bytes : List ℕ)
      → IsValid s.tcp.sender.stream
      → s.tcp.sender.stream.bytes_written + length bytes < u64_mod
      → FileDescriptor.read s.thread_data (remaining_outbound_capacity s.tcp) result
        ≡ some (f, bytes)
      → ((TcpConnection.write s.tcp bytes).1 ≡ length bytes)
        × ((s' : TcpSocket A) × (send ops s result ≡ some s') × (s'.thread_data ≡ f))
  unfolding send
  send_accepts s f result bytes v fits is_read =
      let reads =
        read-Reads s.thread_data f (remaining_outbound_capacity s.tcp) result bytes is_read in
      let all = write_accepts s.tcp bytes v fits reads.limited in
      let same : ((TcpConnection.write s.tcp bytes).1 == length bytes) ≡ true =
        ground (arith, all) in
      let written = (TcpConnection.write s.tcp bytes).0 in
      let ended : TcpSocket A = record s {
        thread_data = f;
        tcp = end_input_stream written;
        outbound_shutdown = true;
      } in
      let going : TcpSocket A = record s { thread_data = f; tcp = written } in
      elim (Bool-cases f.eof) [
        | inl at_end ↦ (all, (ended, rw is_read (rw same (rw at_end refl)), refl))
        | inr more ↦ (all, (going, rw is_read (rw same (rw more refl)), refl))
      ]

  -- Rule 3 hands bytes to the application in their order: what had come from the network is what has
  -- been handed over, with what the write took, and what is left in the inbound stream.
  pub deliver-InOrder :
      (s s' : TcpSocket A) (got handed : List ℕ) (results : List (Option ℕ))
      → InOrder got handed (inbound_stream s.tcp)
      → deliver ops s results ≡ some s'
      → (output : List ℕ) × InOrder got (handed ++ output) (inbound_stream s'.tcp)
  unfolding deliver drain
  deliver-InOrder s s' got handed results v e =
      let inbound = inbound_stream s.tcp in
      let outcome =
        FileDescriptor.write s.thread_data (peek_output inbound (min 65536 inbound.buffer_size))
          false results in
      elim (Option-cases (done_some outcome)) [
        | inl thrown ↦ absurd (ground (arith, e, thrown))
        | inr (w, is_written) ↦
            let left = pop_output inbound w.1 in
            let drained : drain s.thread_data inbound results ≡ some (w.0, left, w.2) =
              rw is_written refl in
            let order =
              drain-InOrder got handed s.thread_data w.0 inbound left w.2 results v drained in
            let left_is : left ≡ inbound_stream s'.tcp =
              ground (arith, e, is_written, Bool-cases (eof left || left.error)) in
            (w.2, rw⁻¹ left_is order)
      ]
