-- ===== src/Ihex.antt =====
-- src/ihex.c: reading the records of an Intel HEX file. The file is a parameter: the bytes that
-- `fread` still hands over, and whether `feof` holds where they end, so that a failed read is told
-- from the end of the file.
pub mod Judgement
pub mod Records
mod Tests
use libdivecomputer.Base.{
  ℕ, zero, suc, ◌+◌, ◌-◌, ◌*◌, Bool, true, false, ◌||◌, ◌&&◌, List, [], ◌∷◌, ◌++◌, Option, none,
  some, ltb, ◌==◌, not, if◌then◌else◌, length, take, drop, get_or, replicate,
}
use libdivecomputer.Base.Words.{u8, u32, sub_u32}
use libdivecomputer.Status.{Status, success, done, io, data_format}
use libdivecomputer.Checksum.{checksum_add_uint8}
use libdivecomputer.Array.Hex.{array_convert_hex2bin}
use libdivecomputer.Array.Integers.{array_uint16_be}

pub record File : Type 0 where
  pub unread : List ℕ
  pub eof : Bool

-- `dc_ihex_entry_t`.
pub record Entry : Type 0 where
  pub type : ℕ
  pub address : ℕ
  pub size : ℕ
  pub bytes : List ℕ

-- The loop that looks for the start code: `none` when it is found.
unfoldable pub find_start : Bool → List ℕ → Option Status × List ℕ
find_start eof [] = (some (if eof then done else io), [])
find_start eof (c ∷ rest) =
    let later = find_start eof rest in
    if c == b':'
    then (none, rest)
    else if c == 0x0a || c == 0x0d
    then later
    else (some data_format, rest)

-- The length that a record of a type has, data records aside.
unfoldable pub record_length : ℕ → ℕ
record_length type = if type == 2 || type == 4 then 2 else if type == 3 || type == 5 then 4 else 0

-- The checks on the bytes of a record, and the entry.
unfoldable pub check_record : List ℕ → ℕ → Status × Option Entry
unfolding record_length
check_record record_bytes size =
    let csum_a = get_or record_bytes (4 + size) 0 in
    let csum_b = u8 (0xff - checksum_add_uint8 (take (4 + size) record_bytes) 0x00 + 1) in
    let type = get_or record_bytes 3 0 in
    if csum_a == csum_b
    then elim (array_uint16_be (drop 1 record_bytes)) [
      | none ↦ (data_format, none)
      | some address ↦
          if ltb 5 type
          then (data_format, none)
          else if not (type == 0) && (not (size == record_length type) || not (address == 0))
          then (data_format, none)
          else (
            success,
            some (record {
              type = type;
              address = address;
              size = size;
              bytes = take size (drop 4 record_bytes) ++ replicate (255 - size) 0;
            }),
          )
    ]
    else (data_format, none)

-- After the start code: the header, which has the length, and then the rest of the record.
unfoldable pub read_record : List ℕ → Status × Option Entry × List ℕ
unfolding check_record
read_record bytes =
    if ltb (length bytes) 8 then (io, none, []) else elim (array_convert_hex2bin (take 8 bytes) 4) [
      | none ↦ (data_format, none, drop 8 bytes)
      | some header ↦
          (let size = get_or header 0 0 in
            let n = 2 * size + 2 in
            let later = drop 8 bytes in
            if ltb (length later) n
            then (io, none, [])
            else elim (array_convert_hex2bin (take n later) (size + 1)) [
              | none ↦ (data_format, none, drop n later)
              | some payload ↦
                  (let (status, entry) = check_record (header ++ payload) size in
                    (status, entry, drop n later))
            ])
    ]

-- `dc_ihex_file_read` on a file and an entry that are there.
unfoldable pub dc_ihex_file_read : File → Status × Option Entry × File
unfolding find_start read_record
dc_ihex_file_read file =
    let (stop, rest) = find_start file.eof file.unread in
    elim stop [
      | some status ↦ (status, none, record file { unread = rest })
      | none ↦
          (let (status, entry, later) = read_record rest in
            (status, entry, record file { unread = later }))
    ]
