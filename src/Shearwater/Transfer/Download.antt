-- ===== src/Shearwater/Transfer/Download.antt =====
-- `shearwater_common_download` of src/shearwater_common.c from a device that serves the blocks.
use libdivecomputer.Base.{
  ℕ, zero, suc, ◌+◌, ◌-◌, ◌*◌, ◌^◌, ◌≤◌, ◌<◌, ◌≡◌, ◌⊎◌, inl, inr, refl, sym, ap, ◌∙◌, Bool, true,
  false, ◌&&◌, not, List, [], ◌∷◌, ◌++◌, Option, none, some, ltb, ◌==◌, ==_iff, length,
  append_assoc, append-nil, length-append, arith,
}
use mathlib.Core.Path.{subst}
use libdivecomputer.Base.Words.{u8, u32}
use libdivecomputer.Base.Blocks.{view-zero}
use libdivecomputer.Status.{success, protocol}
use libdivecomputer.Buffer.{Buffer, Heap, IsHeap, dc_buffer_clear}
use libdivecomputer.Buffer.Memory.{IsValid, contents}
use libdivecomputer.Shearwater.Lre.{Expands, size_is}
use libdivecomputer.Shearwater.Slip.{Wire}
use libdivecomputer.Shearwater.Transfer.{
  sz_packet, Session, shearwater_common_transfer, Downloaded, init_request, store_block, quit,
  quit_response, init_response, stored, block_response, block_loop, shearwater_common_download,
}
use libdivecomputer.Shearwater.Transfer.Answers.{Responds, after, answered}
use libdivecomputer.Shearwater.Transfer.Storing.{
  decode, IsBlock, finish, length-decode, store_block_lem, xor_phase_lem,
}

block_short : (compression : Bool) (bytes : List ℕ) → IsBlock compression bytes → length bytes ≤ 252
block_short true bytes block = block.0
block_short false bytes block = block

module _ (s : Session) (h : Heap) (heap : IsHeap h) (compression : Bool) (size : ℕ) where
  -- A device that serves these blocks from block number `k` on, when `nbytes` have been transferred and
  -- `last` says whether the end mark has been seen, and then the end of the download.
  abbrev pub Serves : ℕ → ℕ → Bool → Wire → List (List ℕ) → Type 0
  Serves k nbytes last wire [] =
      ((last ≡ true) ⊎ (nbytes ≡ size)) × Responds s wire (0x37 ∷ []) (0x77 ∷ 0x00 ∷ [])
  Serves k nbytes last wire (bytes ∷ rest) =
      (last ≡ false)
      × (nbytes < size)
      × (nbytes + length bytes ≤ size)
      × IsBlock compression bytes
      × Responds s wire (0x36 ∷ k ∷ []) (0x76 ∷ k ∷ bytes)
      × Serves (u8 (k + 1)) (nbytes + length bytes) (decode compression bytes).1
          (after s (0x36 ∷ k ∷ []) sz_packet wire) rest

  -- What the blocks stand for.
  abbrev pub decoded : List (List ℕ) → List ℕ
  decoded [] = []
  decoded (bytes ∷ rest) = (decode compression bytes).0 ++ decoded rest

  -- The download is done and the buffer has these bytes, or an allocation has failed.
  abbrev pub Delivers : List ℕ → Option Downloaded → Type 0
  Delivers bytes r =
      ((c : Buffer) × (wire : Wire) × (r
          ≡ some (record { status = success; buffer = some c; wire = wire }))
        × IsValid c
        × (contents c ≡ bytes))
      ⊎ ((c : Buffer) × (wire : Wire) × (n : ℕ) × (h.malloc n ≡ none)
          × (r ≡ some (record { status = protocol; buffer = some c; wire = wire })))

  quit_lem :
      (b : Buffer) (wire : Wire)
      → IsValid b
      → length (contents b) < 2 ^ 32
      → Responds s wire (0x37 ∷ []) (0x77 ∷ 0x00 ∷ [])
      → Delivers (finish compression (contents b)) (quit s h compression b wire)
  unfolding quit quit_response
  quit_lem b wire v limit responds =
      let (c, e, valid, holds) =
        xor_phase_lem compression b v (let z = size_is h heap b v in omega arith) in
      let e' =
        answered s wire (0x37 ∷ []) (0x77 ∷ 0x00 ∷ []) 2 responds (omega arith) (omega arith)
          (omega arith) (omega arith) in
      inl (
        c,
        after s (0x37 ∷ []) 2 wire,
        rw e (
            ap
              (λ r. some (record {
                status = quit_response s h compression r;
                buffer = some c;
                wire = r.wire;
              }))
              e'
            ∙ refl),
        valid,
        holds,
      )

  round_lem :
      (k nbytes : ℕ) (bytes : List ℕ) (b : Buffer) (wire : Wire)
      (next : Buffer → Bool → ℕ → Wire → Option Downloaded)
      → Responds s wire (0x36 ∷ k ∷ []) (0x76 ∷ k ∷ bytes)
      → length bytes ≤ 252
      → nbytes + length bytes ≤ size
      → size < 2 ^ 32
      → block_response s h compression size k nbytes b
          (shearwater_common_transfer s (0x36 ∷ k ∷ []) sz_packet wire)
          next
        ≡ stored s h compression
            (store_block h compression bytes b)
            (after s (0x36 ∷ k ∷ []) sz_packet wire)
            (λ c last. next c last (nbytes + length bytes) (after s (0x36 ∷ k ∷ []) sz_packet wire))
  unfolding block_response
  round_lem k nbytes bytes b wire next responds short fits small =
      let e =
        answered s wire (0x36 ∷ k ∷ []) (0x76 ∷ k ∷ bytes) sz_packet responds (omega arith)
          (omega arith) (omega arith) (omega arith) in
      let same : (k == k) ≡ true = (==_iff k k).1 refl in
      let long : ltb (length (0x76 ∷ k ∷ bytes)) 2 ≡ false = ground arith in
      let count : u32 (nbytes + (length (0x76 ∷ k ∷ bytes) - 2)) ≡ nbytes + length bytes =
        omega arith in
      let inside : ltb size (nbytes + length bytes) ≡ false = ground arith in
      ap (λ r. block_response s h compression size k nbytes b r next) e
      ∙ rw (long, same, count, inside) refl

  goes_on :
      (nbytes : ℕ) (last : Bool)
      → last ≡ false
      → nbytes < size
      → (ltb nbytes size && not last) ≡ true
  goes_on nbytes last e h = ground arith

  stops :
      (nbytes : ℕ) (last : Bool)
      → (last ≡ true) ⊎ (nbytes ≡ size)
      → (ltb nbytes size && not last) ≡ false
  stops nbytes last e = ground arith

  room_left :
      (b c : Buffer) (now : List ℕ) (n : ℕ)
      → IsValid b
      → IsValid c
      → contents c ≡ contents b ++ now
      → length now ≤ 2 ^ 16
      → b.size + 2 ^ 16 * suc n ≤ 2 ^ 61
      → c.size + 2 ^ 16 * n ≤ 2 ^ 61
  room_left b c now n v valid holds few room =
      let z = size_is h heap b v in
      let z' = size_is h heap c valid in
      let z'' = ap length holds in let sz = length-append (contents b) now in omega arith

  stored_lem :
      (r : Option (Bool × Option Buffer × Bool)) (now target : List ℕ) (end : Bool) (wire : Wire)
      (next : Buffer → Bool → Option Downloaded)
      → Expands h now end r
      → ((c : Buffer) → IsValid c → contents c ≡ now → Delivers target (next c end))
      → Delivers target (stored s h compression r wire next)
  stored_lem r now target end wire next (inl (c, e, valid, holds)) onwards =
      subst (λ r. Delivers target (stored s h compression r wire next)) (sym e)
        (onwards c valid holds)
  stored_lem r now target end wire next (inr (c, n, out, e)) onwards =
      inr (c, wire, n, out, ap (λ r. stored s h compression r wire next) e)

  block_loop_lem :
      (blocks : List (List ℕ)) (fuel k nbytes : ℕ) (last : Bool) (b : Buffer) (wire : Wire)
      → length blocks ≤ fuel
      → size < 2 ^ 32
      → IsValid b
      → b.size + 2 ^ 16 * length blocks ≤ 2 ^ 61
      → length (contents b ++ decoded blocks) < 2 ^ 32
      → Serves k nbytes last wire blocks
      → Delivers
          (finish compression (contents b ++ decoded blocks))
          (block_loop s h compression fuel size k nbytes last b wire)
  unfolding block_loop
  block_loop_lem [] zero k nbytes last b wire enough small v room limit (ends, responds) =
      rw (stops nbytes last ends, append-nil (contents b))
        (quit_lem b wire v (let z = ap length (append-nil (contents b)) in omega arith) responds)
  block_loop_lem [] (suc fuel) k nbytes last b wire enough small v room limit (ends, responds) =
      rw (stops nbytes last ends, append-nil (contents b))
        (quit_lem b wire v (let z = ap length (append-nil (contents b)) in omega arith) responds)
  block_loop_lem (bytes ∷ rest) zero k nbytes last b wire enough small v room limit serves =
      absurd (omega arith)
  block_loop_lem (bytes ∷ rest) (suc fuel) k nbytes last b wire enough small v room limit
        (unfinished, some_left, fits, block, responds, onwards) =
      let wire' = after s (0x36 ∷ k ∷ []) sz_packet wire in
      let next : Buffer → Bool → ℕ → Wire → Option Downloaded = λ c last' nbytes' wire'.
        block_loop s h compression fuel size (u8 (k + 1)) nbytes' last' c wire' in
      rw (goes_on nbytes last unfinished some_left) (
        subst
          (Delivers
            (finish compression (contents b ++ ((decode compression bytes).0 ++ decoded rest))))
          (sym (
            round_lem k nbytes bytes b wire next responds (block_short compression bytes block) fits
              small))
          (stored_lem (store_block h compression bytes b) _ _ _ wire'
            (λ c last'. next c last' (nbytes + length bytes) wire')
            (store_block_lem h compression bytes b heap block v (omega arith))
            (λ c valid holds.
              subst
                (λ l.
                  Delivers (finish compression l)
                    (next c (decode compression bytes).1 (nbytes + length bytes) wire'))
                (ap (λ l. l ++ decoded rest) holds
                  ∙ append_assoc (contents b) (decode compression bytes).0 (decoded rest))
                (block_loop_lem rest fuel (u8 (k + 1)) (nbytes + length bytes)
                  (decode compression bytes).1 c wire' (omega arith) small valid
                  (room_left b c _ (length rest) v valid holds
                    (length-decode compression bytes block) room)
                  (let z = ap length (
                      ap (λ l. l ++ decoded rest) holds
                      ∙ append_assoc (contents b) (decode compression bytes).0 (decoded rest)) in
                    omega arith)
                  onwards))))

  -- On a device that serves the download in blocks, at most 2^32 of them, of a size below 2^32
  -- before and after the expansion, into a valid buffer, with fuel for every block:
  -- `shearwater_common_download` succeeds, and the buffer has exactly what the blocks stand for, with
  -- compression the run lengths and the differences taken back. Or an allocation fails, and the call
  -- reports an error.
  pub shearwater_common_download_lem :
      (blocks : List (List ℕ)) (fuel address len : ℕ) (b : Buffer) (wire : Wire)
      → length blocks ≤ fuel
      → length blocks ≤ 2 ^ 32
      → length (decoded blocks) < 2 ^ 32
      → size < 2 ^ 32
      → IsValid b
      → len ≤ sz_packet
      → Responds s wire (init_request compression address size) (0x75 ∷ 0x10 ∷ len ∷ [])
      → Serves 1 0 false (after s (init_request compression address size) 3 wire) blocks
      → Delivers
          (finish compression (decoded blocks))
          (shearwater_common_download s h compression fuel address size (some b) wire)
  unfolding shearwater_common_download init_response init_request dc_buffer_clear
  shearwater_common_download_lem blocks fuel address len b wire enough few limit small v short
        responds serves =
      let e =
        answered s wire (init_request compression address size) (0x75 ∷ 0x10 ∷ len ∷ []) 3 responds
          (omega arith) (omega arith) (omega arith) (omega arith) in
      let allowed : ltb sz_packet len ≡ false = ground arith in
      let b' : Buffer = record b { offset = 0; size = 0 } in
      let v' : IsValid b' = record {
        block_size = v.block_size;
        inside = omega arith;
        small = v.small;
      } in
      subst (Delivers (finish compression (decoded blocks)))
        (sym (ap (λ r. init_response s h compression fuel size b' r) e ∙ rw allowed refl))
        (subst
          (λ l. Delivers (finish compression (l ++ decoded blocks)) (
            block_loop s h compression fuel size 1 0 false b'
              (after s (init_request compression address size) 3 wire)))
          (view-zero 0 b.block)
          (block_loop_lem blocks fuel 1 0 false b' _ enough small v' (omega arith)
            (let z = ap (λ l. length (l ++ decoded blocks)) (view-zero 0 b.block) in omega arith)
            serves))
