-- ===== src/Benchmark/Tests.antt =====
-- Runs of tcp_benchmark.cc, and the theorem at inputs that meet its hypotheses.
use tcp_implementation.Base.{◌≡◌, refl, [], ◌∷◌, none, arith}
use tcp_implementation.WrappingIntegers.{WrappingInt32}
use tcp_implementation.TcpSegment.{TcpSegment, default_header, default_segment}
use tcp_implementation.TcpConnection.{TcpConfig, TcpConnection, new, connect}
use tcp_implementation.TcpConnection.Reach
use tcp_implementation.Benchmark.{backwards, write_input}
use tcp_implementation.Benchmark.Writing.{Ends, write_input-Ends}

abbrev isn : WrappingInt32
isn = record { raw_value = 7 }

-- A connection with room for 2 bytes.
abbrev narrow : TcpConfig
narrow = record { rt_timeout = 1000; recv_capacity = 2; send_capacity = 2; fixed_isn = none }

abbrev connected : TcpConnection
connected = connect (new narrow isn)

write_input-Ends_example :
    Ends narrow isn
      (omega arith)
      (omega arith)
      0
      connected
      (1 ∷ 2 ∷ 3 ∷ [])
      (write_input connected (1 ∷ 2 ∷ 3 ∷ []))
write_input-Ends_example =
    write_input-Ends narrow isn (omega arith) (omega arith) 0 connected (1 ∷ 2 ∷ 3 ∷ [])
      (omega arith) (Reach.connects Reach.start)

abbrev numbered : TcpSegment
numbered = record { header = record default_header { seqno = isn }; payload = [] }

reordered : backwards (numbered ∷ default_segment ∷ []) ≡ default_segment ∷ numbered ∷ []
unfolding backwards
reordered = refl
