-- ===== src/Ihex/Records.antt =====
-- `dc_ihex_file_read` of src/ihex.c on a record of a file.
use libdivecomputer.Base.{
  ℕ, ◌+◌, ◌*◌, ◌/◌, ◌%◌, ◌^◌, ◌≤◌, ◌<◌, ◌≡◌, ◌⊎◌, inl, inr, refl, sym, ap, ◌∙◌, Bool, false, List,
  [], ◌∷◌, ◌++◌, Option, none, some, ltb, le→ltb, length, length-append, take, drop, take-append_le,
  take-of_le, drop-append_le, drop-of_le, arith,
}
use libdivecomputer.Status.{Status}
use libdivecomputer.Checksum.Table.{IsBytes}
use libdivecomputer.Array.Hex.{bin2hex, length-bin2hex, hex-bin2hex, array_convert_hex2bin}
use libdivecomputer.Ihex.{File, Entry, find_start, check_record, read_record, dc_ihex_file_read}
use libdivecomputer.Ihex.Judgement.{body, Judged, check_record_lem}

abbrev pub AreLineEnds : List ℕ → Type 0
AreLineEnds [] = Unit
AreLineEnds (c ∷ rest) = ((c ≡ 0x0a) ⊎ (c ≡ 0x0d)) × AreLineEnds rest

-- A record as text.
abbrev pub line : ℕ → ℕ → List ℕ → ℕ → List ℕ
line type address bytes checksum = b':' ∷ bin2hex (body type address bytes ++ checksum ∷ [])

find_start_lem :
    (eof : Bool) (ends rest : List ℕ)
    → AreLineEnds ends
    → find_start eof (ends ++ b':' ∷ rest) ≡ (none, rest)
unfolding find_start
find_start_lem eof [] rest h = refl
find_start_lem eof (c ∷ ends) rest (inl e, h) = rw e (find_start_lem eof ends rest h)
find_start_lem eof (c ∷ ends) rest (inr e, h) = rw e (find_start_lem eof ends rest h)

-- Behind the start code, what is read is the record.
from_start :
    (eof : Bool) (unread rest : List ℕ)
    → find_start eof unread ≡ (none, rest)
    → dc_ihex_file_read (record { unread = unread; eof = eof }) ≡ (
        let (status, entry, later) = read_record rest in
        (status, entry, record { unread = later; eof = eof }))
unfolding dc_ihex_file_read
from_start eof unread rest found =
    ap
      (λ (s : Option Status × List ℕ). elim s.0 as (λ x. Status × Option Entry × File) [
        | some status ↦ (status, none, record { unread = s.1; eof = eof })
        | none ↦
            (let (status, entry, later) = read_record s.1 in
              (status, entry, record { unread = later; eof = eof }))
      ])
      found

append-IsBytes : (xs ys : List ℕ) → IsBytes xs → IsBytes ys → IsBytes (xs ++ ys)
append-IsBytes [] ys h h' = h'
append-IsBytes (x ∷ xs) ys (small, h) h' = (small, append-IsBytes xs ys h h')

module _ (type address checksum : ℕ) (bytes : List ℕ) (few : length bytes ≤ 255)
    (type_byte : type < 256) (short : address < 2 ^ 16) (checksum_byte : checksum < 256)
    (data_bytes : IsBytes bytes) where
  abbrev first : List ℕ
  first = length bytes ∷ address / 256 ∷ address % 256 ∷ type ∷ []

  abbrev second : List ℕ
  second = bytes ++ checksum ∷ []

  length-second : length second ≡ length bytes + 1
  length-second = length-append bytes (checksum ∷ [])

  abbrev hex : List ℕ
  hex = bin2hex second

  length-hex : length hex ≡ 2 * length bytes + 2
  length-hex = let z = length-bin2hex second in let z' = length-second in omega arith

  header_read : array_convert_hex2bin (bin2hex first) 4 ≡ some first
  header_read =
      hex-bin2hex first (omega arith, (omega arith, (omega arith, (type_byte, tt)))) (omega arith)

  payload_read : array_convert_hex2bin hex (length bytes + 1) ≡ some second
  payload_read =
      ap (array_convert_hex2bin hex) (sym length-second)
      ∙ hex-bin2hex second (append-IsBytes bytes (checksum ∷ []) data_bytes (checksum_byte, tt))
          (let z = length-second in omega arith)

  taken : (later : List ℕ) → take (2 * length bytes + 2) (hex ++ later) ≡ hex
  taken later =
      let z = length-hex in
      take-append_le (2 * length bytes + 2) hex later (omega arith)
      ∙ take-of_le (2 * length bytes + 2) hex (omega arith)

  dropped : (later : List ℕ) → drop (2 * length bytes + 2) (hex ++ later) ≡ later
  dropped later =
      let z = length-hex in
      drop-append_le (2 * length bytes + 2) hex later (omega arith)
      ∙ ap (λ l. l ++ later) (drop-of_le (2 * length bytes + 2) hex (omega arith))

  abbrev text : List ℕ → List ℕ
  text later = bin2hex first ++ (hex ++ later)

  eight : length (bin2hex first) ≡ 8
  eight = length-bin2hex first

  head_taken : (later : List ℕ) → take 8 (text later) ≡ bin2hex first
  head_taken later =
      let z = eight in
      take-append_le 8 (bin2hex first) (hex ++ later) (omega arith)
      ∙ take-of_le 8 (bin2hex first) (omega arith)

  head_dropped : (later : List ℕ) → drop 8 (text later) ≡ hex ++ later
  head_dropped later =
      let z = eight in
      drop-append_le 8 (bin2hex first) (hex ++ later) (omega arith)
      ∙ ap (λ l. l ++ (hex ++ later)) (drop-of_le 8 (bin2hex first) (omega arith))

  abbrev checked : List ℕ → Status × Option Entry × List ℕ
  checked later =
      let (status, entry) = check_record (first ++ second) (length bytes) in (status, entry, later)

  read_record_lem : (later : List ℕ) → read_record (text later) ≡ checked later
  unfolding read_record
  read_record_lem later =
      let sz = length-append (bin2hex first) (hex ++ later) in
      let sz' = length-append hex later in
      let z = length-hex in
      let z' = eight in
      let enough : ltb (length (text later)) 8 ≡ false =
        le→ltb (length (text later)) 8 (omega arith) in
      let more : ltb (length (hex ++ later)) (2 * length bytes + 2) ≡ false =
        le→ltb (length (hex ++ later)) (2 * length bytes + 2) (omega arith) in
      rw
        (
          enough,
          head_taken later,
          header_read,
          head_dropped later,
          more,
          taken later,
          payload_read,
          head_dropped later,
          dropped later,
        )
        refl

  line-text : (later : List ℕ) → line type address bytes checksum ++ later ≡ b':' ∷ text later
  unfolding bin2hex
  line-text later = refl

  -- For every record, of any type, address, data and checksum that fit their bytes, written as
  -- hexadecimal text behind line ends and a start code: `dc_ihex_file_read` takes exactly this text. When
  -- all bytes of the record add up to 0 modulo 256 and its type has this length and address, the call
  -- succeeds, and the entry has the type, the address, the length and the data, with zeros behind them.
  -- Every other record is refused as malformed, without an entry.
  pub dc_ihex_file_read_lem :
      (eof : Bool) (ends later : List ℕ)
      → AreLineEnds ends
      → (result : Status × Option Entry) × (dc_ihex_file_read
            (record { unread = ends ++ (line type address bytes checksum ++ later); eof = eof })
          ≡ (result.0, result.1, record { unread = later; eof = eof }))
        × Judged type address bytes checksum result
  unfolding dc_ihex_file_read
  dc_ihex_file_read_lem eof ends later line_ends = (
    check_record (first ++ second) (length bytes),
    ap (λ l. dc_ihex_file_read (record { unread = ends ++ l; eof = eof })) (line-text later)
        ∙ from_start eof (ends ++ b':' ∷ text later) (text later)
            (find_start_lem eof ends (text later) line_ends)
        ∙ ap (λ r. (r.0, r.1, record { unread = r.2; eof = eof })) (read_record_lem later),
    check_record_lem type address checksum bytes few type_byte short checksum_byte,
  )
