-- ===== src/Ethernet/Tests.antt =====
-- A frame that is too short.
use tcp_implementation.Base.{◌≡◌, arith, [], ◌∷◌, ap}
use tcp_implementation.Parser.{no_error}
use tcp_implementation.Ethernet.{parse}
use tcp_implementation.Ethernet.RoundTrip.{parse_short_frame}

short_frame_taken : (parse (1 ∷ 2 ∷ 3 ∷ [])).1 ≡ no_error
short_frame_taken = ap (λ t. t.1) (parse_short_frame (1 ∷ 2 ∷ 3 ∷ []) (omega arith)).1
