-- ===== src/Packet/Write.antt =====
-- `dc_packet_write` of src/packet.c hands all bytes to the base stream, in packets of a limited size.
use libdivecomputer.Base.{
  ℕ, zero, suc, ◌+◌, ◌≤◌, ◌<◌, ◌≡◌, ◌⊎◌, inl, inr, sym, ap, ◌∙◌, List, [], ◌∷◌, ◌++◌, append-nil,
  append_assoc, Option, some, ltb, ◌==◌, if◌then◌else◌, length, length-take, length-drop, take,
  drop, take-append-drop, dec_lt, arith,
}
use libdivecomputer.Base.Blocks.{take-take}
use libdivecomputer.Status.{Status, success}
use libdivecomputer.Packet.{Port, write_loop, dc_packet_write}

-- A size of packets, 0 for any.
abbrev pub Fits : ℕ → ℕ → Type 0
Fits osize n = (osize ≡ 0) ⊎ (n ≤ osize)

-- A base stream that takes some of the bytes of every write that fits, at least one, and sends them.
pub record TakesSome {S : Type 0} (port : Port S) (osize : ℕ) (sent : S → List ℕ) : Type 0 where
  pub succeeds :
      (s : S) (bytes : List ℕ)
      → 0 < length bytes
      → Fits osize (length bytes)
      → (s' : S) × (n : ℕ) × (port.write s bytes ≡ (success, n, s'))
        × (0 < n)
        × (n ≤ length bytes)
        × (sent s' ≡ sent s ++ take n bytes)

joins :
    (xs log log' log'' : List ℕ) (n len : ℕ)
    → n ≤ len
    → log' ≡ log ++ take n (take len xs)
    → log'' ≡ log' ++ drop n xs
    → log'' ≡ log ++ xs
joins xs log log' log'' n len h e e' =
    e'
    ∙ ap (λ l. l ++ drop n xs) (e ∙ ap (λ t. log ++ t) (take-take n len xs h))
    ∙ append_assoc log (take n xs) (drop n xs)
    ∙ ap (λ t. log ++ t) (take-append-drop n xs)

module _ {S : Type 0} (port : Port S) (osize : ℕ) (sent : S → List ℕ)
    (takes : TakesSome port osize sent) where
  packet_size :
      (wanted : ℕ)
      → 0 < wanted
      → (len : ℕ) × ((if osize == 0 then wanted else if ltb osize wanted then osize else wanted)
          ≡ len)
        × (0 < len)
        × (len ≤ wanted)
        × Fits osize len
  packet_size wanted h = elim (dec_lt 0 osize) [
    | no any ↦ (wanted, ground arith, h, omega arith, inl (omega arith))
    | yes limited ↦ elim (dec_lt osize wanted) [
      | yes large ↦ (osize, ground arith, limited, omega arith, inr (omega arith))
      | no small ↦ (wanted, ground arith, h, omega arith, inr (omega arith))
    ]
  ]

  write_step :
      (fuel nbytes b len n : ℕ) (bytes : List ℕ) (s s' : S)
      → (if osize == 0
          then length (b ∷ bytes)
          else if ltb osize (length (b ∷ bytes))
          then osize
          else length (b ∷ bytes))
        ≡ len
      → port.write s (take len (b ∷ bytes)) ≡ (success, n, s')
      → write_loop port osize (suc fuel) nbytes (b ∷ bytes) s
        ≡ write_loop port osize fuel (nbytes + n) (drop n (b ∷ bytes)) s'
  unfolding write_loop
  write_step fuel nbytes b len n bytes s s' e e' =
      ap (λ len. continue (port.write s (take len (b ∷ bytes)))) e ∙ ap continue e'
    where
      continue : Status × ℕ × S → Option (Status × ℕ × S)
      continue (status, n, s) = elim status [
        | success ↦ write_loop port osize fuel (nbytes + n) (drop n (b ∷ bytes)) s
        | e ↦ some (e, nbytes, s)
      ]

  write_loop_lem :
      (fuel nbytes : ℕ) (bytes : List ℕ) (s : S)
      → length bytes ≤ fuel
      → (s' : S) × (write_loop port osize fuel nbytes bytes s
          ≡ some (success, nbytes + length bytes, s'))
        × (sent s' ≡ sent s ++ bytes)
  unfolding write_loop
  write_loop_lem zero nbytes [] s h = (
    s,
    (let z : nbytes ≡ nbytes + 0 = omega arith in ap (λ n. some (success, n, s)) z),
    sym (append-nil (sent s)),
  )
  write_loop_lem (suc fuel) nbytes [] s h = (
    s,
    (let z : nbytes ≡ nbytes + 0 = omega arith in ap (λ n. some (success, n, s)) z),
    sym (append-nil (sent s)),
  )
  write_loop_lem zero nbytes (b ∷ bytes) s h = elim h [ ]
  write_loop_lem (suc fuel) nbytes (b ∷ bytes) s h =
      let (len, e, positive, short, fits) = packet_size (length (b ∷ bytes)) (omega arith) in
      let sz = length-take len (b ∷ bytes) in
      let whole : length (take len (b ∷ bytes)) ≡ len = omega arith in
      let (s2, n, e2, some_taken, no_more, log) =
        takes.succeeds s (take len (b ∷ bytes)) (omega arith)
          (elim fits [ inl z ↦ inl z | inr z ↦ inr (omega (arith, z)) ]) in
      let sz' = length-drop n (b ∷ bytes) in
      let (s3, e3, log3) = write_loop_lem fuel (nbytes + n) (drop n (b ∷ bytes)) s2 (omega arith) in
      let z : nbytes + n + length (drop n (b ∷ bytes)) ≡ nbytes + length (b ∷ bytes) =
        omega arith in
      (
        s3,
        write_step fuel nbytes b len n bytes s s2 e e2 ∙ e3 ∙ ap (λ n. some (success, n, s3)) z,
        joins (b ∷ bytes) (sent s) (sent s2) (sent s3) n len (omega arith) log log3,
      )

  -- Over a base stream that takes at least one byte of every write that fits into a packet:
  -- `dc_packet_write` ends, succeeds, reports every byte as written and has sent exactly the bytes in
  -- their order, with no write larger than a packet.
  pub dc_packet_write_lem :
      (bytes : List ℕ) (s : S)
      → (s' : S) × (dc_packet_write port osize bytes s ≡ some (success, length bytes, s'))
        × (sent s' ≡ sent s ++ bytes)
  unfolding dc_packet_write
  dc_packet_write_lem bytes s =
      let (s', e, log) = write_loop_lem (length bytes) 0 bytes s (omega arith) in
      let z : 0 + length bytes ≡ length bytes = omega arith in
      (s', e ∙ ap (λ n. some (success, n, s')) z, log)
