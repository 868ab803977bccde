-- ===== src/Stream/Tests.antt =====
-- Runs of the stream macros.
use arduino_spider_l3s_libra.Base.{◌≡◌, refl, [], ◌∷◌, ok}
use arduino_spider_l3s_libra.Stream.{
  Cursor, store, load, uint8_to_stream, uint32_to_stream, stream_to_uint32,
}

abbrev seven_bytes : Cursor
seven_bytes = record { buffer = 1 ∷ 2 ∷ 3 ∷ 4 ∷ 5 ∷ 6 ∷ 7 ∷ []; position = 2 }

-- Lowest byte first.
written_run :
    uint32_to_stream seven_bytes 0x12345678
    ≡ ok (record { buffer = 1 ∷ 2 ∷ 0x78 ∷ 0x56 ∷ 0x34 ∷ 0x12 ∷ 7 ∷ []; position = 6 })
unfolding uint32_to_stream uint8_to_stream store
written_run = refl

read_run : stream_to_uint32 (1 ∷ 2 ∷ 0x78 ∷ 0x56 ∷ 0x34 ∷ 0x12 ∷ 7 ∷ []) 2 ≡ ok 0x12345678
unfolding stream_to_uint32 load
read_run = refl
