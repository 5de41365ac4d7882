-- ===== src/Ihex/Judgement.antt =====
-- Which records of src/ihex.c are accepted, by the rules of the format.
use libdivecomputer.Base.{
  ℕ, zero, suc, ◌+◌, ◌-◌, ◌*◌, ◌/◌, ◌%◌, ◌^◌, ◌≤◌, ◌<◌, ◌≡◌, ◌⊎◌, inl, inr, refl, ap, ◌∙◌, true,
  false, not, ◌&&◌, ◌||◌, List, [], ◌∷◌, ◌++◌, Option, none, some, ltb, ◌==◌, ==_iff, length, take,
  drop, get_or, replicate, take-append_le, take-of_le, arith,
}
use libdivecomputer.Base.Words.{u8}
use libdivecomputer.Status.{Status, success, data_format}
use libdivecomputer.Checksum.{checksum_add_uint8}
use libdivecomputer.Checksum.Sums.{sum, add_uint8_sum}
use libdivecomputer.Array.Integers.{array_uint16_be}
use libdivecomputer.Array.Word.{array_uint16_be_value}
use libdivecomputer.Ihex.{Entry, record_length, check_record}

-- The bytes of a record before its checksum.
abbrev pub body : ℕ → ℕ → List ℕ → List ℕ
body type address bytes = length bytes ∷ address / 256 ∷ address % 256 ∷ type ∷ bytes

-- Data records have any length and address. An end of file record (1) has no data, the extended
-- addresses (2 and 4) have two bytes, the start addresses (3 and 5) four, all at address 0.
abbrev pub HasShape : ℕ → ℕ → List ℕ → Type 0
HasShape zero address bytes = Unit
HasShape (suc zero) address bytes = (length bytes ≡ 0) × (address ≡ 0)
HasShape (suc (suc zero)) address bytes = (length bytes ≡ 2) × (address ≡ 0)
HasShape (suc (suc (suc zero))) address bytes = (length bytes ≡ 4) × (address ≡ 0)
HasShape (suc (suc (suc (suc zero)))) address bytes = (length bytes ≡ 2) × (address ≡ 0)
HasShape (suc (suc (suc (suc (suc zero))))) address bytes = (length bytes ≡ 4) × (address ≡ 0)
HasShape (suc (suc (suc (suc (suc (suc n)))))) address bytes = ⊥

-- All bytes add up to 0 modulo 256.
abbrev pub IsSound : ℕ → ℕ → List ℕ → ℕ → Type 0
IsSound type address bytes checksum =
    ((sum (body type address bytes) + checksum) % 256 ≡ 0) × HasShape type address bytes

-- A sound record gives its entry, with zeros behind the data, and any other one is malformed.
abbrev pub Judged : ℕ → ℕ → List ℕ → ℕ → Status × Option Entry → Type 0
Judged type address bytes checksum result =
    (IsSound type address bytes checksum
      × (result ≡ (
        success,
        some (record {
          type = type;
          address = address;
          size = length bytes;
          bytes = bytes ++ replicate (255 - length bytes) 0;
        }),
      )))
    ⊎ ((¬ IsSound type address bytes checksum) × (result ≡ (data_format, none)))

-- The test of the shape in the source, against the rules.
shape_test :
    (type address : ℕ) (bytes : List ℕ)
    → (HasShape type address bytes
        × (ltb 5 type ≡ false)
        × ((not (type == 0) && (not (length bytes == record_length type) || not (address == 0)))
            ≡ false))
      ⊎ ((¬ HasShape type address bytes)
          × ((ltb 5 type ≡ true)
              ⊎ ((ltb 5 type ≡ false)
                  × ((not (type == 0)
                        && (not (length bytes == record_length type) || not (address == 0)))
                      ≡ true))))
unfolding record_length
shape_test zero address bytes = inl (tt, refl, refl)
shape_test (suc zero) address bytes = ground arith
shape_test (suc (suc zero)) address bytes = ground arith
shape_test (suc (suc (suc zero))) address bytes = ground arith
shape_test (suc (suc (suc (suc zero)))) address bytes = ground arith
shape_test (suc (suc (suc (suc (suc zero))))) address bytes = ground arith
shape_test (suc (suc (suc (suc (suc (suc n)))))) address bytes = inr ((λ h. h), inl (ground arith))

module _ (type address checksum : ℕ) (bytes : List ℕ) (few : length bytes ≤ 255)
    (type_byte : type < 256) (short : address < 2 ^ 16) (checksum_byte : checksum < 256) where
  abbrev whole : List ℕ
  whole = body type address bytes ++ checksum ∷ []

  at_end : (xs : List ℕ) (x : ℕ) → get_or (xs ++ x ∷ []) (length xs) 0 ≡ x
  at_end [] x = refl
  at_end (y ∷ xs) x = at_end xs x

  checksum_at : get_or whole (4 + length bytes) 0 ≡ checksum
  checksum_at =
      ap (λ m. get_or whole m 0)
        (let z : 4 + length bytes ≡ length (body type address bytes) = omega arith in z)
      ∙ at_end (body type address bytes) checksum

  summed_bytes : take (4 + length bytes) whole ≡ body type address bytes
  summed_bytes =
      take-append_le (4 + length bytes) (body type address bytes) (checksum ∷ []) (omega arith)
      ∙ take-of_le (4 + length bytes) (body type address bytes) (omega arith)

  data_bytes : take (length bytes) (bytes ++ checksum ∷ []) ≡ bytes
  data_bytes =
      take-append_le (length bytes) bytes (checksum ∷ []) (omega arith)
      ∙ take-of_le (length bytes) bytes (omega arith)

  address_at : array_uint16_be (drop 1 whole) ≡ some address
  address_at =
      array_uint16_be_value (address / 256) (address % 256) (type ∷ (bytes ++ checksum ∷ []))
        (omega arith) (omega arith)
      ∙ ap some (let z : address / 256 * 2 ^ 8 + address % 256 * 2 ^ 0 ≡ address = omega arith in z)

  -- The source compares with the two's complement of the sum of the other bytes.
  complement :
      (n : ℕ)
      → (((n + checksum) % 256 ≡ 0) × (checksum ≡ u8 (0xff - n % 256 + 1)))
        ⊎ ((¬ ((n + checksum) % 256 ≡ 0)) × (¬ (checksum ≡ u8 (0xff - n % 256 + 1))))
  complement n = ground arith

  pub check_record_lem : Judged type address bytes checksum (check_record whole (length bytes))
  unfolding check_record
  check_record_lem =
      let n = sum (body type address bytes) in
      let summed : checksum_add_uint8 (body type address bytes) 0x00 ≡ n % 256 =
        add_uint8_sum (body type address bytes) 0 (omega arith)
        ∙ (let z : (0 + n) % 256 ≡ n % 256 = omega arith in z) in
      rw (checksum_at, summed_bytes, summed)
        (elim (complement n) [
          | inr (unsound, differs) ↦
              (let z : (checksum == u8 (0xff - n % 256 + 1)) ≡ false = ground arith in
                rw z (inr ((λ sound. unsound sound.0), refl)))
          | inl (zero_sum, agrees) ↦
              rw ((==_iff _ _).1 agrees, address_at)
                (elim (shape_test type address bytes) [
                  | inl (shape, small, right) ↦
                      rw (small, right, data_bytes) (inl ((zero_sum, shape), refl))
                  | inr (misshapen, inl large) ↦ rw large (inr ((λ sound. misshapen sound.1), refl))
                  | inr (misshapen, inr (small, wrong)) ↦
                      rw (small, wrong) (inr ((λ sound. misshapen sound.1), refl))
                ])
        ])
