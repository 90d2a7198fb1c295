-- ===== src/Buffer/Tests.antt =====
-- Bytes taken from the front of two buffers.
use tcp_implementation.Base.{◌≡◌, arith, List, [], ◌∷◌, drop, some, All}
use tcp_implementation.Buffer.{Buffer, buffer, str, remove_prefix, views, views_remove_prefix}
use tcp_implementation.Buffer.Bytes.{IsBuffer, within, bytes, remove_prefix_drops}

abbrev packet : List Buffer
packet = buffer (1 ∷ 2 ∷ []) ∷ buffer (3 ∷ 4 ∷ 5 ∷ []) ∷ []

packet-IsBuffer : All IsBuffer packet
packet-IsBuffer =
    (within (1 ∷ 2 ∷ []) 0 (omega arith), (within (3 ∷ 4 ∷ 5 ∷ []) 0 (omega arith), tt))

remove_prefix_drops_example :
    (bufs' : List Buffer) × (remove_prefix packet 3 ≡ some bufs')
    × All IsBuffer bufs'
    × (bytes bufs' ≡ drop 3 (bytes packet))
    × (views_remove_prefix (views packet) 3 ≡ some (views bufs'))
unfolding str
remove_prefix_drops_example = remove_prefix_drops packet 3 packet-IsBuffer (omega arith)
