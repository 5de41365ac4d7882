-- ===== src/Ihex/Tests.antt =====
-- Runs of src/ihex.c, and an instance of its law.
use libdivecomputer.Base.{
  ℕ, ◌≡◌, ◌++◌, Option, inl, arith, refl, true, false, List, [], ◌∷◌, none, some, replicate,
}
use libdivecomputer.Status.{Status, success, done, io}
use libdivecomputer.Checksum.{checksum_add_uint8}
use libdivecomputer.Array.Hex.{array_convert_hex2bin, hex2bin, hex_digit}
use libdivecomputer.Array.Integers.{array_uint16_be}
use libdivecomputer.Ihex.{
  Entry, find_start, read_record, check_record, record_length, dc_ihex_file_read,
}
use libdivecomputer.Ihex.Judgement.{Judged, IsSound}
use libdivecomputer.Ihex.Records
use libdivecomputer.Ihex.Records.{dc_ihex_file_read_lem}

-- A record with no payload at address 0x0100, after a line end.
abbrev line : List ℕ
line = 0x0a ∷ b':' ∷ b'0' ∷ b'0' ∷ b'0' ∷ b'1' ∷ b'0' ∷ b'0' ∷ b'0' ∷ b'0' ∷ b'F' ∷ b'F' ∷ 0x0d ∷ []

read_line : dc_ihex_file_read (record { unread = line; eof = true }) ≡ (
  success,
  some (record { type = 0; address = 0x0100; size = 0; bytes = replicate 255 0 }),
  record { unread = 0x0d ∷ []; eof = true },
)
unfolding dc_ihex_file_read find_start read_record check_record record_length array_convert_hex2bin
    hex2bin hex_digit array_uint16_be checksum_add_uint8
read_line = refl

read_done :
    dc_ihex_file_read (record { unread = 0x0a ∷ []; eof = true })
    ≡ (done, none, record { unread = []; eof = true })
unfolding dc_ihex_file_read find_start
read_done = refl

read_fails :
    dc_ihex_file_read (record { unread = []; eof = false })
    ≡ (io, none, record { unread = []; eof = false })
unfolding dc_ihex_file_read find_start
read_fails = refl

-- Two bytes of data at address 0x0100, after a line end and before another one.
dc_ihex_file_read_lem_example :
    (result : Status × Option Entry) × (dc_ihex_file_read (record {
      unread = 0x0a ∷ [] ++ (Records.line 0 0x0100 (0x21 ∷ 0x46 ∷ []) 0x96 ++ 0x0d ∷ []);
      eof = true;
    })
      ≡ (result.0, result.1, record { unread = 0x0d ∷ []; eof = true }))
    × Judged 0 0x0100 (0x21 ∷ 0x46 ∷ []) 0x96 result
dc_ihex_file_read_lem_example =
    dc_ihex_file_read_lem 0 0x0100 0x96 (0x21 ∷ 0x46 ∷ []) (omega arith) (omega arith) (omega arith)
      (omega arith) (omega arith, (omega arith, tt)) true (0x0a ∷ []) (0x0d ∷ []) (inl refl, tt)

-- With this checksum the record is sound.
IsSound-run : IsSound 0 0x0100 (0x21 ∷ 0x46 ∷ []) 0x96
IsSound-run = (refl, tt)
