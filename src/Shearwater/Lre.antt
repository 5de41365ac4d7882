-- ===== src/Shearwater/Lre.antt =====
-- `shearwater_common_decompress_lre` of src/shearwater_common.c expands the stream into the buffer.
use libdivecomputer.Base.{
  ℕ, zero, suc, ◌+◌, ◌-◌, ◌*◌, ◌/◌, ◌%◌, ◌^◌, ◌≤◌, ◌<◌, ◌≡◌, ◌⊎◌, inl, inr, bit_and, refl, sym, ap,
  ap₂, ◌∙◌, Bool, true, false, not, List, [], ◌∷◌, ◌++◌, append-nil, append_assoc, Option, none,
  some, leb, le→leb, lt→leb, ==_iff, ◌==◌, if◌then◌else◌, length, take, take-of_le, replicate,
  length-append, length-replicate, dec_le, dec_lt, arith,
}
use mathlib.Core.Path.{subst}
use libdivecomputer.Base.Words.{u32, bit_and_mask}
use libdivecomputer.Base.Blocks.{length-view}
use libdivecomputer.Checksum.Table.{IsBytes}
use libdivecomputer.Array.Digits.{passes_below, passes_below-at}
use libdivecomputer.Buffer.{Buffer, Heap, IsHeap, Reply, dc_buffer_append, dc_buffer_resize}
use libdivecomputer.Buffer.Memory.{IsValid, contents, Succeeds, Refused}
use libdivecomputer.Buffer.Ends.{dc_buffer_append_lem}
use libdivecomputer.Buffer.Sizes.{dc_buffer_resize_lem}
use libdivecomputer.Shearwater.{checked, value_at, lre_loop, shearwater_common_decompress_lre}
use libdivecomputer.Shearwater.Words.{word, value_at_lem}

-- What a stream of values stands for, and whether it has an end: a value from 256 on is a byte, 0 is
-- the end, and any other one is a number of zero bytes.
unfoldable pub expand : List ℕ → List ℕ × Bool
expand [] = ([], false)
expand (v ∷ values) =
    let (later, end) = expand values in
    if leb 256 v
    then ((v - 256) ∷ later, end)
    else if v == 0
    then ([], true)
    else (replicate v 0 ++ later, end)

unfoldable pub words : List ℕ → ℕ → ℕ → List ℕ
words bytes zero k = []
words bytes (suc n) k = word bytes k ∷ words bytes n (k + 1)

word_lt : (bytes : List ℕ) (k : ℕ) → word bytes k < 512
unfolding word
word_lt bytes k = omega arith

flag_table :
    passes_below 512 (λ v. if leb 256 v then not (bit_and v 0x100 == 0) else bit_and v 0x100 == 0)
    ≡ true
unfolding passes_below
flag_table = refl

flag_set : (v : ℕ) → v < 512 → 256 ≤ v → not (bit_and v 0x100 == 0) ≡ true
flag_set v h large =
    let t =
      passes_below-at 512
        (λ v. if leb 256 v then not (bit_and v 0x100 == 0) else bit_and v 0x100 == 0) v flag_table
        h in
    let e = le→leb 256 v large in rw e at t

flag_clear : (v : ℕ) → v < 256 → not (bit_and v 0x100 == 0) ≡ false
flag_clear v h =
    let t =
      passes_below-at 512
        (λ v. if leb 256 v then not (bit_and v 0x100 == 0) else bit_and v 0x100 == 0) v flag_table
        (omega arith) in
    let e = lt→leb 256 v h in ap not (rw e at t)

pub expand_byte :
    (v : ℕ) (vs : List ℕ) → 256 ≤ v → expand (v ∷ vs) ≡ ((v - 256) ∷ (expand vs).0, (expand vs).1)
unfolding expand
expand_byte v vs h = rw (le→leb 256 v h)

pub expand_end : (v : ℕ) (vs : List ℕ) → v ≡ 0 → expand (v ∷ vs) ≡ ([], true)
unfolding expand
expand_end v vs e = let z : leb 256 v ≡ false = ground arith in rw (z, (==_iff v 0).1 e)

pub expand_run :
    (v : ℕ) (vs : List ℕ)
    → 0 < v
    → v < 256
    → expand (v ∷ vs) ≡ (replicate v 0 ++ (expand vs).0, (expand vs).1)
unfolding expand
expand_run v vs h h' = let z : (v == 0) ≡ false = ground arith in rw (lt→leb 256 v h', z)

-- The stream is expanded behind what the buffer has, or an allocation fails and the call does too.
abbrev pub Expands : Heap → List ℕ → Bool → Option (Bool × Option Buffer × Bool) → Type 0
Expands h bytes end r =
    ((c : Buffer) × (r ≡ some (true, some c, end)) × IsValid c × (contents c ≡ bytes))
    ⊎ ((c : Buffer) × (n : ℕ) × (h.malloc n ≡ none) × (r ≡ some (false, some c, false)))

module _ (h : Heap) (heap : IsHeap h) where
  after_call :
      (r : Reply) (b : Buffer) (now later : List ℕ) (end : Bool)
      (k : Buffer → Option (Bool × Option Buffer × Bool))
      → Succeeds r now ⊎ Refused h b r
      → ((c : Buffer) → IsValid c → contents c ≡ now → Expands h (now ++ later) end (k c))
      → Expands h (now ++ later) end (checked r k)
  after_call r b now later end k (inl s) onwards =
      subst (λ r. Expands h (now ++ later) end (checked r k)) (sym s.returns)
        (onwards s.after s.valid s.holds)
  after_call r b now later end k (inr (n, out, e)) onwards =
      inr (b, n, out, ap (λ r. checked r k) e)

  pub size_is : (c : Buffer) → IsValid c → c.size ≡ length (contents c)
  size_is c v =
      let z = v.inside in
      let z' = v.block_size in sym (length-view c.offset c.size c.block (omega arith))

  module _ (bytes : List ℕ) where
    lre_step :
        (left offset v : ℕ) (b : Buffer)
        → value_at bytes offset ≡ some v
        → lre_loop h bytes (suc left) offset b ≡ (
            if not (bit_and v 0x100 == 0)
            then checked
                (dc_buffer_append h (some b) (bit_and v 0xff ∷ []))
                (λ c. lre_loop h bytes left (offset + 9) c)
            else if v == 0
            then some (true, some b, true)
            else checked
                (dc_buffer_resize h (some b) (b.size + v))
                (λ c. lre_loop h bytes left (offset + 9) c))
    unfolding lre_loop
    lre_step left offset v b e = rw e

    abbrev next : ℕ → ℕ → Buffer → Option (Bool × Option Buffer × Bool)
    next left offset c = lre_loop h bytes left (offset + 9) c

    lre_byte :
        (left offset v : ℕ) (b : Buffer)
        → value_at bytes offset ≡ some v
        → v < 512
        → 256 ≤ v
        → lre_loop h bytes (suc left) offset b
          ≡ checked (dc_buffer_append h (some b) ((v - 256) ∷ [])) (next left offset)
    lre_byte left offset v b e small large =
        let z : bit_and v 0xff ≡ v - 256 = bit_and_mask 8 v ∙ omega arith in
        lre_step left offset v b e
        ∙ rw (flag_set v small large)
            (ap (λ t. checked (dc_buffer_append h (some b) (t ∷ [])) (next left offset)) z)

    lre_end :
        (left offset v : ℕ) (b : Buffer)
        → value_at bytes offset ≡ some v
        → v ≡ 0
        → lre_loop h bytes (suc left) offset b ≡ some (true, some b, true)
    lre_end left offset v b e zeros =
        lre_step left offset v b e ∙ rw (flag_clear v (omega arith), (==_iff v 0).1 zeros)

    lre_run :
        (left offset v : ℕ) (b : Buffer)
        → value_at bytes offset ≡ some v
        → 0 < v
        → v < 256
        → lre_loop h bytes (suc left) offset b
          ≡ checked (dc_buffer_resize h (some b) (b.size + v)) (next left offset)
    lre_run left offset v b e positive small =
        let z : (v == 0) ≡ false = ground arith in
        lre_step left offset v b e ∙ rw (flag_clear v small, z)

    moved :
        (b : Buffer) (p p' : List ℕ × Bool) (r r' : Option (Bool × Option Buffer × Bool))
        → p' ≡ p
        → r' ≡ r
        → Expands h (contents b ++ p.0) p.1 r
        → Expands h (contents b ++ p'.0) p'.1 r'
    moved b p p' r r' e e' x =
        subst (λ p. Expands h (contents b ++ p.0) p.1 r') (sym e)
          (subst (λ r. Expands h (contents b ++ p.0) p.1 r) (sym e') x)

    -- One call, and the rest of the stream behind it.
    chained :
        (n k : ℕ) (b : Buffer) (now later : List ℕ) (end : Bool) (r : Reply)
        → Succeeds r (contents b ++ now) ⊎ Refused h b r
        → ((c : Buffer)
            → IsValid c
            → contents c ≡ contents b ++ now
            → Expands h (contents c ++ later) end (lre_loop h bytes n (9 * (k + 1)) c))
        → Expands h (contents b ++ (now ++ later)) end (checked r (next n (9 * k)))
    chained n k b now later end r call onwards =
        let z : 9 * (k + 1) ≡ 9 * k + 9 = omega arith in
        subst (λ l. Expands h l end (checked r (next n (9 * k))))
          (append_assoc (contents b) now later)
          (after_call r b (contents b ++ now) later end (next n (9 * k)) call (λ c v e.
            subst (λ l. Expands h (l ++ later) end (lre_loop h bytes n (9 * k + 9) c)) e
              (subst (λ o. Expands h (contents c ++ later) end (lre_loop h bytes n o c)) z
                (onwards c v e))))

    no_values :
        (k : ℕ) (b : Buffer)
        → IsValid b
        → Expands h
            (contents b ++ (expand (words bytes 0 k)).0)
            (expand (words bytes 0 k)).1
            (lre_loop h bytes 0 (9 * k) b)
    unfolding expand words lre_loop
    no_values k b v = inl (b, refl, v, sym (append-nil (contents b)))

    room_after :
        (b c : Buffer) (now : List ℕ) (n : ℕ)
        → IsValid b
        → IsValid c
        → contents c ≡ contents b ++ now
        → length now ≤ 255
        → b.size + 255 * suc n ≤ 2 ^ 63
        → c.size + 255 * n ≤ 2 ^ 63
    room_after b c now n vb vc e small room =
        let z = size_is b vb in
        let z' = size_is c vc in
        let z'' = ap length e in let sz = length-append (contents b) now in omega arith

    resized :
        (b : Buffer) (v : ℕ)
        → IsValid b
        → Succeeds
            (dc_buffer_resize h (some b) (b.size + v))
            (take (b.size + v) (contents b) ++ replicate (b.size + v - b.size) 0)
          ⊎ Refused h b (dc_buffer_resize h (some b) (b.size + v))
        → Succeeds (dc_buffer_resize h (some b) (b.size + v)) (contents b ++ replicate v 0)
          ⊎ Refused h b (dc_buffer_resize h (some b) (b.size + v))
    resized b v vb r =
        let z = size_is b vb in
        let z' : b.size + v - b.size ≡ v = omega arith in
        subst
          (λ l.
            Succeeds (dc_buffer_resize h (some b) (b.size + v)) l
            ⊎ Refused h b (dc_buffer_resize h (some b) (b.size + v)))
          (ap₂ (λ l n. l ++ replicate n 0) (take-of_le (b.size + v) (contents b) (omega arith)) z')
          r

    lre_loop_lem :
        (n k : ℕ) (b : Buffer)
        → IsBytes bytes
        → 9 * (k + n) ≤ 8 * length bytes
        → IsValid b
        → b.size + 255 * n ≤ 2 ^ 63
        → Expands h
            (contents b ++ (expand (words bytes n k)).0)
            (expand (words bytes n k)).1
            (lre_loop h bytes n (9 * k) b)
    unfolding words
    lre_loop_lem zero k b small fits v room = no_values k b v
    lre_loop_lem (suc n) k b small fits v room =
        let w = word bytes k in
        let e = value_at_lem bytes k small (omega arith) in
        elim (dec_le 256 w) [
          | yes large ↦
              moved b _ _ _ _ (expand_byte w (words bytes n (k + 1)) large)
                (lre_byte n (9 * k) w b e (word_lt bytes k) large)
                (chained n k b ((w - 256) ∷ []) _ _ (dc_buffer_append h (some b) ((w - 256) ∷ []))
                  (dc_buffer_append_lem h b ((w - 256) ∷ []) heap v (omega arith))
                  (λ c vc same.
                    lre_loop_lem n (k + 1) c small (omega arith) vc
                      (room_after b c ((w - 256) ∷ []) n v vc same (omega arith) room)))
          | no fewer ↦ elim (dec_lt 0 w) [
            | no none_left ↦
                moved b _ _ _ _ (expand_end w (words bytes n (k + 1)) (omega arith))
                  (lre_end n (9 * k) w b e (omega arith))
                  (inl (b, refl, v, sym (append-nil (contents b))))
            | yes positive ↦
                moved b _ _ _ _ (expand_run w (words bytes n (k + 1)) positive (omega arith))
                  (lre_run n (9 * k) w b e positive (omega arith))
                  (chained n k b (replicate w 0) _ _ (dc_buffer_resize h (some b) (b.size + w))
                    (resized b w v (dc_buffer_resize_lem h b (b.size + w) heap v (omega arith)))
                    (λ c vc same. lre_loop_lem n (k + 1) c small (omega arith) vc (
                      room_after b c (replicate w 0) n v vc same
                        (let sz = length-replicate w (let z : ℕ = 0 in z) in omega arith) room)))
          ]
        ]

  -- On a valid buffer, for every array of bytes that consists of whole 9-bit values and is small
  -- enough for the sizes not to wrap: the first phase of the decompression appends what the values
  -- stand for, read from the left out of the bits of the array, up to the end mark, and says whether
  -- there is one. Or an allocation fails, and the call reports an error. No access leaves the array.
  pub shearwater_common_decompress_lre_lem :
      (bytes : List ℕ) (b : Buffer)
      → IsBytes bytes
      → IsValid b
      → length bytes * 8 % 9 ≡ 0
      → length bytes * 8 < 2 ^ 32
      → b.size < 2 ^ 62
      → Expands h
          (contents b ++ (expand (words bytes (length bytes * 8 / 9) 0)).0)
          (expand (words bytes (length bytes * 8 / 9) 0)).1
          (shearwater_common_decompress_lre h bytes b)
  unfolding shearwater_common_decompress_lre
  shearwater_common_decompress_lre_lem bytes b small v whole short room =
      let z : u32 (length bytes * 8) ≡ length bytes * 8 = omega arith in
      let z' : (length bytes * 8 % 9 == 0) ≡ true = (==_iff _ _).1 whole in
      rw z
        (rw z' (lre_loop_lem bytes (length bytes * 8 / 9) 0 b small (omega arith) v (omega arith)))
