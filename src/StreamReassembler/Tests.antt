-- ===== src/StreamReassembler/Tests.antt =====
-- Runs of stream_reassembler.cc, and the theorems at inputs that meet their hypotheses.
use tcp_implementation.Base.{
  ◌++◌, ℕ, ◌+◌, ◌-◌, ◌≤◌, ◌<◌, ◌≡◌, refl, List, [], ◌∷◌, true, false, none, some, arith, min, take,
  drop, length,
}
use tcp_implementation.ByteStream.{ByteStream, remaining_capacity, write, write_loop, read}
use tcp_implementation.StreamReassembler
use tcp_implementation.StreamReassembler.{
  Datagram, StreamReassembler, datagram, push_substring, push_on, resume, arrive, indicator,
  append_next, overlap_handler, missing_middle_handler, middle_loop, scan, inspect, store, sort,
  close, pop_front,
}
use tcp_implementation.StreamReassembler.Excerpts.{Fits}
use tcp_implementation.StreamReassembler.Assemble.{Good}
use tcp_implementation.StreamReassembler.History.{pushes, Reach, here, next, Reach-reads_text}
use tcp_implementation.StreamReassembler.Hang.{middle_loop_fuel, push_substring_hangs}
use tcp_implementation.StreamReassembler.Ends.{push_substring-Good}
use tcp_implementation.StreamReassembler.Limits.{overlap_handler_skips, push_substring_ends_early}

abbrev empty_output : ByteStream
empty_output = record {
  error = false;
  input_ended = false;
  capacity = 8;
  buffer_size = 0;
  bytes_written = 0;
  bytes_read = 0;
  stream = [];
}

abbrev fresh : StreamReassembler
fresh = record {
  output = empty_output;
  capacity = 8;
  next_assembling_index = 0;
  smallest_temporty_index = 0;
  unassembled_bytes = 0;
  storage = [];
}

abbrev text : List ℕ
text = 1 ∷ 2 ∷ 3 ∷ 4 ∷ 5 ∷ 6 ∷ []

-- The bytes from place 3 on arrive first.
abbrev waiting : StreamReassembler
waiting = record fresh {
  smallest_temporty_index = 3;
  unassembled_bytes = 3;
  storage = datagram (4 ∷ 5 ∷ 6 ∷ []) 3 true ∷ [];
}

push_ahead : push_substring fresh (4 ∷ 5 ∷ 6 ∷ []) 3 true ≡ some waiting
unfolding push_substring resume arrive indicator remaining_capacity missing_middle_handler
    middle_loop scan store sort
push_ahead = refl

abbrev finished : StreamReassembler
finished = record {
  output = record {
    error = false;
    input_ended = true;
    capacity = 8;
    buffer_size = 6;
    bytes_written = 6;
    bytes_read = 0;
    stream = text;
  };
  capacity = 8;
  next_assembling_index = 6;
  smallest_temporty_index = 3;
  unassembled_bytes = 0;
  storage = [];
}

-- The gap is filled, with an overlap.
push_gap : push_substring waiting (1 ∷ 2 ∷ 3 ∷ 4 ∷ []) 0 false ≡ some finished
unfolding push_substring resume arrive indicator remaining_capacity append_next overlap_handler
    write write_loop close pop_front
push_gap = refl

waiting-Good : Good text waiting
waiting-Good = record {
  carried = record { valid = omega arith; within_text = omega arith; buffered = refl };
  aligned = refl;
  fits = (
    record {
      sized = refl;
      excerpt = record { inside = omega arith; agrees = refl };
      below = omega arith;
      last = λ e. omega arith;
    },
    tt,
  );
  counted = refl;
  ended = λ e. cc;
}

text_front : Fits text 8 (datagram (1 ∷ 2 ∷ 3 ∷ 4 ∷ []) 0 false)
text_front = record {
  sized = refl;
  excerpt = record { inside = omega arith; agrees = refl };
  below = omega arith;
  last = λ e. cc;
}

push_substring-Good_example :
    (r' : StreamReassembler) × (push_substring waiting (1 ∷ 2 ∷ 3 ∷ 4 ∷ []) 0 false ≡ some r')
    × Good text r'
    × (0 ≤ r'.output.bytes_written)
push_substring-Good_example =
    push_substring-Good text (omega arith) waiting (1 ∷ 2 ∷ 3 ∷ 4 ∷ []) 0 false waiting-Good
      text_front (omega arith) (omega arith) (omega arith)

new-eq-fresh : StreamReassembler.new 8 ≡ fresh
unfolding StreamReassembler.new
new-eq-fresh = refl

text_back : Fits text 8 (datagram (4 ∷ 5 ∷ 6 ∷ []) 3 true)
text_back = record {
  sized = refl;
  excerpt = record { inside = omega arith; agrees = refl };
  below = omega arith;
  last = λ e. omega arith;
}

history : Reach text (StreamReassembler.new 8) finished
history = rw new-eq-fresh (
    next (next here (pushes (4 ∷ 5 ∷ 6 ∷ []) 3 true text_back (omega arith) push_ahead))
      (pushes (1 ∷ 2 ∷ 3 ∷ 4 ∷ []) 0 false text_front (omega arith) push_gap))

Reach-reads_text_example :
    ((read finished.output 4).1 ≡ take (min 4 6) (drop 0 text))
    × (true ≡ true → 6 ≡ length text)
    × (6 ≤ length text)
Reach-reads_text_example = Reach-reads_text 4 (omega arith) (omega arith) history

abbrev shorter : Datagram
shorter = datagram (4 ∷ []) 3 false

middle_loop_stuck : middle_loop 2 shorter 3 waiting.storage ≡ none
unfolding middle_loop scan inspect
middle_loop_stuck = refl

middle_loop_fuel_example : middle_loop 1000 shorter 3 waiting.storage ≡ none
middle_loop_fuel_example =
    middle_loop_fuel 2 1000 shorter 3 waiting.storage (omega arith) middle_loop_stuck

push_substring_hangs_example :
    (push_substring waiting (4 ∷ []) 3 false ≡ none)
    × (middle_loop 9 (datagram (4 ∷ []) 3 false) waiting.unassembled_bytes waiting.storage ≡ none)
push_substring_hangs_example =
    push_substring_hangs waiting (4 ∷ []) 3 false (datagram (4 ∷ 5 ∷ 6 ∷ []) 3 true) [] 9
      (unfold remaining_capacity in omega arith) (unfold indicator in omega arith) (omega arith)
      refl refl (omega arith) (omega arith)

-- Two bytes of room; bytes 0 and 1 are assembled.
abbrev narrow : StreamReassembler
narrow = record fresh {
  output = record empty_output {
    capacity = 4;
    buffer_size = 2;
    bytes_written = 2;
    stream = 1 ∷ 2 ∷ [];
  };
  capacity = 4;
  next_assembling_index = 2;
}

overlap_handler_skips_example :
    let (r', data_exceeded) = overlap_handler narrow (datagram text 0 false) in
    (r'.next_assembling_index ≡ 6)
    × (r'.output.bytes_written ≡ 2 + remaining_capacity narrow.output)
    × (r'.output.stream
        ≡ (1 ∷ 2 ∷ []) ++ take (remaining_capacity narrow.output) (drop (2 - 0) text))
    × (r'.output.bytes_written < r'.next_assembling_index)
    × (data_exceeded ≡ true)
overlap_handler_skips_example =
    overlap_handler_skips narrow (datagram text 0 false) (omega arith) refl (omega arith)
      (unfold remaining_capacity in omega arith) (omega arith)

push_substring_ends_early_example :
    (r' : StreamReassembler) × (push_substring narrow (3 ∷ 4 ∷ 5 ∷ 6 ∷ []) 2 true ≡ some r')
    × (r'.output.input_ended ≡ true)
    × (r'.output.bytes_written ≡ 2 + remaining_capacity narrow.output)
    × (r'.output.stream
        ≡ (1 ∷ 2 ∷ []) ++ take (remaining_capacity narrow.output) (3 ∷ 4 ∷ 5 ∷ 6 ∷ []))
push_substring_ends_early_example =
    push_substring_ends_early narrow (3 ∷ 4 ∷ 5 ∷ 6 ∷ []) (omega arith)
      (unfold indicator in omega arith) refl (unfold remaining_capacity in omega arith)
      (unfold remaining_capacity in omega arith) (omega arith)
