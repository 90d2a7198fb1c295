-- ===== src/StreamReassembler.antt =====
-- libsponge/stream_reassembler.hh and .cc: substrings that come in any order, put in order.
-- `--begin()` of a list followed by `++` is the list's begin, as in libstdc++'s circular lists,
-- so the iterator that is set back to it scans the list anew.
pub mod Excerpts
pub mod Middle
pub mod Assemble
pub mod Calls
pub mod History
pub mod Hang
pub mod Ends
pub mod Reached
pub mod Limits
mod Tests
use tcp_implementation.Base.{
  ℕ, zero, suc, ◌+◌, Bool, true, false, ◌&&◌, ◌||◌, not, List, [], ◌∷◌, ◌++◌, Option, none, some,
  ltb, leb, ◌==◌, if◌then◌else◌, length, drop, add64, sub64,
}
use mathlib.Core.Option
use tcp_implementation.ByteStream
use tcp_implementation.ByteStream.{ByteStream, remaining_capacity, write, end_input}

-- `struct datagram`.
pub record Datagram : Type 0 where
  pub bytes : List ℕ
  pub index : ℕ
  pub size : ℕ
  pub eof : Bool

-- `datagram dg{data, index, data.length(), eof}`.
abbrev pub datagram : List ℕ → ℕ → Bool → Datagram
datagram bytes index eof = record { bytes = bytes; index = index; size = length bytes; eof = eof }

-- `class StreamReassembler`. `storage` is `temporarily_descrete_data_storage`.
pub record StreamReassembler : Type 0 where
  pub output : ByteStream
  pub capacity : ℕ
  pub next_assembling_index : ℕ
  pub smallest_temporty_index : ℕ
  pub unassembled_bytes : ℕ
  pub storage : List Datagram

unfoldable pub new : ℕ → StreamReassembler
unfolding ByteStream.new
new capacity = record {
  output = ByteStream.new capacity;
  capacity = capacity;
  next_assembling_index = 0;
  smallest_temporty_index = 0;
  unassembled_bytes = 0;
  storage = [];
}

abbrev pub front_index : List Datagram → ℕ
front_index [] = 0
front_index (d ∷ ds) = d.index

abbrev pub first_unassemble_byte_index : StreamReassembler → ℕ
first_unassemble_byte_index r = front_index r.storage

-- `ptr_tail` and `dg_tail`.
abbrev pub tail : Datagram → ℕ
tail d = add64 d.index d.size

-- `overlap_merger(dg1, dg2)`: what it makes of `dg1`.
unfoldable pub overlap_merger : Datagram → Datagram → Datagram
overlap_merger dg1 dg2 =
    let start_at = sub64 (add64 dg1.index dg1.size) dg2.index in
    let non_overlap_part = drop start_at dg2.bytes in
    if start_at == 0 then dg1 else record dg1 {
      bytes = dg1.bytes ++ non_overlap_part;
      size = add64 dg1.size (length non_overlap_part);
    }

-- What one round of the loop of `missing_middle_handler` decides about `*ptr`: the function
-- returns, the loop breaks, `*ptr` is erased and the scan starts anew with a new `dg`, the scan
-- starts anew with nothing changed, or `ptr` moves on.
pub data Verdict : Type 0 where
  duplicate break_off : Verdict
  absorb : Datagram → ℕ → Verdict
  again pass : Verdict

-- The round's `if` chain. The number beside the new `dg` is taken off `_unassembled_bytes`.
unfoldable pub inspect : Datagram → Datagram → Verdict
unfolding overlap_merger
inspect dg ptr =
    if dg.index == ptr.index && tail ptr == tail dg
    then duplicate
    else if ltb ptr.index dg.index && ltb (tail ptr) (tail dg)
    then break_off
    else if ltb ptr.index dg.index && ltb dg.index (tail ptr)
    then (if leb (tail dg) (tail ptr)
        then duplicate
        else absorb (overlap_merger ptr dg) (overlap_merger ptr dg).size)
    else if ltb dg.index ptr.index && ltb ptr.index (tail dg)
    then (if leb (tail ptr) (tail dg)
        then absorb dg ptr.size
        else absorb (overlap_merger dg ptr) ptr.size)
    else if dg.index == ptr.index
    then (if ltb ptr.size dg.size then absorb dg ptr.size else again)
    else pass

-- What a scan of the list comes to.
pub data Scan : Type 0 where
  returns stops restarts : Scan
  absorbs : Datagram → ℕ → List Datagram → Scan

-- One scan, from `begin()` until a round does something; `seen` are the entries passed.
unfoldable pub scan : List Datagram → List Datagram → Datagram → Scan
scan seen [] dg = stops
scan seen (ptr ∷ rest) dg = elim (inspect dg ptr) [
  | duplicate ↦ returns
  | break_off ↦ stops
  | absorb dg' n ↦ absorbs dg' n (seen ++ rest)
  | again ↦ restarts
  | pass ↦ scan (seen ++ ptr ∷ []) rest dg
]

-- The loop's result: `_unassembled_bytes`, the storage, and `dg` unless the function returned.
abbrev pub Loop : Type 0
Loop = ℕ × List Datagram × Option Datagram

-- The loop, on fuel for its scans.
unfoldable pub middle_loop : ℕ → Datagram → ℕ → List Datagram → Option Loop
middle_loop zero dg unassembled storage = none
middle_loop (suc fuel) dg unassembled storage = elim (scan [] storage dg) [
  | returns ↦ some (unassembled, storage, none)
  | stops ↦ some (unassembled, storage, some dg)
  | restarts ↦ middle_loop fuel dg unassembled storage
  | absorbs dg' n storage' ↦ middle_loop fuel dg' (sub64 unassembled n) storage'
]

-- `list::sort` by index, which is stable.
unfoldable pub insert_sorted : Datagram → List Datagram → List Datagram
insert_sorted d [] = d ∷ []
insert_sorted d (x ∷ xs) = if ltb x.index d.index then x ∷ insert_sorted d xs else d ∷ x ∷ xs

unfoldable pub sort : List Datagram → List Datagram
unfolding insert_sorted
sort [] = []
sort (d ∷ ds) = insert_sorted d (sort ds)

-- What follows the loop.
unfoldable pub store : StreamReassembler → Loop → StreamReassembler
store r (unassembled, storage, none) = record r {
  unassembled_bytes = unassembled;
  storage = storage;
}
store r (unassembled, storage, some dg) = record r {
  unassembled_bytes = add64 unassembled dg.size;
  storage = sort (dg ∷ storage);
  smallest_temporty_index = front_index (sort (dg ∷ storage));
}

-- `missing_middle_handler(dg)`; `none` if its loop does not end.
unfoldable pub missing_middle_handler : StreamReassembler → Datagram → Option StreamReassembler
missing_middle_handler r dg =
    Option.map (store r) (middle_loop (length r.storage + 1) dg r.unassembled_bytes r.storage)

-- `overlap_handler(new_dg)`: the new state, and whether data was left over.
unfoldable pub overlap_handler : StreamReassembler → Datagram → StreamReassembler × Bool
overlap_handler r new_dg =
    let start_at = sub64 r.next_assembling_index new_dg.index in
    let non_overlap_part = drop start_at new_dg.bytes in
    let next = add64 r.next_assembling_index (length non_overlap_part) in
    let out = (write r.output non_overlap_part).0 in
    (record r { output = out; next_assembling_index = next }, ltb out.bytes_written next)

-- How `push_substring` goes on before it looks at the storage.
pub data Arrival : Type 0 where
  ignored missing : Arrival
  assembled : StreamReassembler → Bool → Arrival

unfoldable pub indicator : StreamReassembler → ℕ
indicator r =
    if leb r.next_assembling_index (first_unassemble_byte_index r)
    then add64 r.capacity (first_unassemble_byte_index r)
    else add64 r.capacity r.next_assembling_index

-- The good case of `push_substring`.
unfoldable pub append_next : StreamReassembler → List ℕ → StreamReassembler
append_next r bytes =
    let re_cap = remaining_capacity r.output in
    record r {
      next_assembling_index =
          add64 r.next_assembling_index
            (if ltb re_cap (length bytes) then re_cap else length bytes);
      output = (write r.output bytes).0;
    }

unfoldable pub arrive : StreamReassembler → Datagram → Arrival
arrive r dg =
    if remaining_capacity r.output == 0
    then ignored
    else if leb (indicator r) dg.index
    then ignored
    else if dg.index == r.next_assembling_index
    then assembled (append_next r dg.bytes) false
    else if ltb r.next_assembling_index dg.index
    then missing
    else if ltb r.next_assembling_index (add64 dg.index (length dg.bytes))
    then assembled (overlap_handler r dg).0 (overlap_handler r dg).1
    else assembled r false

-- The last lines of `push_substring`.
unfoldable pub close : Datagram → Bool → StreamReassembler → StreamReassembler
close dg data_exceeded r =
    if dg.eof && not data_exceeded then record r { output = end_input r.output } else r

-- The arguments `_data`, `index` and `eof` of a call, as the datagram that the call makes of them.
abbrev pub as_pushed : Datagram → Datagram
as_pushed d = record d { size = length d.bytes }

-- `write_in_data` is taken off the storage.
unfoldable pub pop_front : List Datagram → Datagram → StreamReassembler → StreamReassembler
pop_front rest write_in_data r = record r {
  storage = rest;
  unassembled_bytes = sub64 r.unassembled_bytes write_in_data.size;
}

-- What follows the arrival; `stored` tells that the storage is not empty, and `inner` is the call
-- that `push_substring` then makes of itself.
unfoldable pub resume :
    StreamReassembler
    → Datagram
    → Bool
    → (StreamReassembler → Option StreamReassembler)
    → Arrival
    → Option StreamReassembler
resume r dg stored inner ignored = some r
resume r dg stored inner missing = missing_middle_handler r dg
resume r dg stored inner (assembled r' data_exceeded) =
    let gap_fixed = leb r'.smallest_temporty_index r'.next_assembling_index in
    let data_exists_and_not_empty_list = not (length dg.bytes == 0) && stored in
    let called = inner r' in
    if gap_fixed && data_exists_and_not_empty_list
    then Option.map (close dg data_exceeded) called
    else some (close dg data_exceeded r')

-- `push_substring`, which calls itself on the front of the storage: recursion on the storage,
-- which is `r.storage`. `none` if a call of `missing_middle_handler` does not end.
unfoldable pub push_on : List Datagram → StreamReassembler → Datagram → Option StreamReassembler
push_on [] r dg = resume r dg false some (arrive r dg)
push_on (front ∷ rest) r dg =
    resume r dg true (λ r'. push_on rest (pop_front rest front r') (as_pushed front)) (arrive r dg)

unfoldable pub push_substring : StreamReassembler → List ℕ → ℕ → Bool → Option StreamReassembler
unfolding push_on
push_substring r bytes index eof = push_on r.storage r (datagram bytes index eof)

-- `empty()`: the conversion of `unassembled_bytes()` to bool.
unfoldable pub empty : StreamReassembler → Bool
empty r = not (r.unassembled_bytes == 0)
