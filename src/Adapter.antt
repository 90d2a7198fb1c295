-- ===== src/Adapter.antt =====
-- The adapters between TCP segments and devices: libsponge/tcp_helpers/tuntap_adapter.hh and .cc,
-- fd_adapter.hh and .cc, lossy_fd_adapter.hh. What a device gives is an argument, what is written to it
-- a result.
pub mod Tun
pub mod Tap
pub mod Udp
pub mod Lossy
mod Tests
use tcp_implementation.Base.{List, Option}
use tcp_implementation.TcpSegment.{TcpSegment}
use tcp_implementation.TcpOverIp.{FdAdapterConfig}

-- The operations that `LossyFdAdapter` asks of an adapter. `read` takes what the device gives; `write`
-- gives the adapter, the segment and what goes to the device, or `none` where it throws.
pub record AdapterOps (A Input Output : Type 0) : Type 0 where
  pub config : A → FdAdapterConfig
  pub read : A → Input → A × Option TcpSegment
  pub write : A → TcpSegment → Option (A × TcpSegment × List Output)
