-- ===== src/Buffer/Tests.antt =====
-- Concrete buffers, runs of the operations on them, and the theorems at these.
use reactor_network_library.Prelude.{◌≡◌, refl, some, none, List, [], ◌∷◌, arith}
use reactor_network_library.Buffer.{
  Buffer, init, append, peek_int32, ensure_writeable_bytes, make_space, failed, got,
}
use reactor_network_library.Buffer.Storage.{write_at}
use reactor_network_library.Buffer.Inv.{IsValid, init-IsValid}
use reactor_network_library.Buffer.Refine.{contents}
use reactor_network_library.Buffer.Take.{peek_int32_lem}
use reactor_network_library.Buffer.Calls.{Call, appends, retrieves, takes, drains, reads}

-- Two bytes consumed, three readable, one byte of room.
abbrev tight : Buffer
tight = record {
  buffer = 0 ∷ 0 ∷ 0 ∷ 0 ∷ 0 ∷ 0 ∷ 0 ∷ 0 ∷ 1 ∷ 2 ∷ 0 ∷ 0 ∷ 1 ∷ 44 ∷ 0 ∷ [];
  reader_index = 10;
  writer_index = 14;
}

tight-IsValid : IsValid tight
tight-IsValid = omega arith

abbrev script : List Call
script =
    appends (5 ∷ 6 ∷ 7 ∷ [])
    ∷ takes 2
    ∷ reads (got (8 ∷ 9 ∷ []))
    ∷ reads (failed 11)
    ∷ retrieves 1
    ∷ drains
    ∷ []

init_empty : init 0 ≡ none
unfolding init
init_empty = refl

-- Room is made by moving the bytes to the front.
append_moves : append tight (5 ∷ 6 ∷ []) ≡ record {
  buffer = 0 ∷ 0 ∷ 0 ∷ 0 ∷ 0 ∷ 0 ∷ 0 ∷ 0 ∷ 0 ∷ 0 ∷ 1 ∷ 44 ∷ 5 ∷ 6 ∷ 0 ∷ [];
  reader_index = 8;
  writer_index = 14;
}
unfolding append ensure_writeable_bytes make_space write_at
append_moves = refl

peek_int32_runs : peek_int32 tight ≡ some 300
unfolding peek_int32
peek_int32_runs = refl

init_one :
    IsValid (record {
      buffer = 0 ∷ 0 ∷ 0 ∷ 0 ∷ 0 ∷ 0 ∷ 0 ∷ 0 ∷ 0 ∷ [];
      reader_index = 8;
      writer_index = 8;
    })
unfolding init
init_one = init-IsValid 1 (omega arith) refl

peek_int32_of_stream : peek_int32 tight ≡ some 300
unfolding contents
peek_int32_of_stream = peek_int32_lem 0 0 1 44 [] tight-IsValid refl
