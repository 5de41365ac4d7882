-- ===== src/Suunto/Rounds.antt =====
-- One round of the loop of `suunto_common_extract_dives` of src/suunto_common.c, and what it accesses.
use libdivecomputer.Base.{
  ◌⊎◌, ℕ, ◌+◌, ◌-◌, ◌≤◌, ◌<◌, ◌≡◌, inl, inr, refl, ◌∙◌, Bool, true, false, List, Option, none, some,
  ltb, ◌==◌, if◌then◌else◌, length, get_elem?, get_or, get_elem?-eq-get_or, Bool-cases, dec_lt,
  arith,
}
use libdivecomputer.Base.Words.{u32, sub_u32}
use libdivecomputer.Base.Blocks.{
  view, load, patch, load-eq-some, store-eq-some, length-view, length-patch,
}
use libdivecomputer.Array.{same_bytes}
use libdivecomputer.RingBuffer.Residues.{IsRing, InRing}
use libdivecomputer.RingBuffer.Laws.{decrement_lem, ringbuffer_increment-distance}
use libdivecomputer.Suunto.{
  Layout, Walk, Verdict, go_on, stop, leave, gather, is_known, deliver, round,
}

-- A layout whose ring lies in the memory and has room for the fingerprint, and whose pointer to the end
-- of the profiles lies in the memory, if it has one.
pub record Suits (layout : Layout) (memory : List ℕ) : Type 0 where
  pub ring : IsRing layout.rb_profile_begin layout.rb_profile_end
  pub inside : layout.rb_profile_end ≤ length memory
  pub header : (layout.eop ≡ 0) ⊎ (layout.eop + 2 ≤ length memory)
  pub fingerprint_fits : layout.fp_offset + 5 ≤ layout.rb_profile_end - layout.rb_profile_begin

-- The callback of the application.
abbrev pub Callback : Type 0 → Type 0
Callback S = Option (S → List ℕ → List ℕ → Bool × S)

module _ (layout : Layout) (memory : List ℕ) (suits : Suits layout memory) where
  abbrev pub begin : ℕ
  begin = layout.rb_profile_begin

  abbrev pub end : ℕ
  end = layout.rb_profile_end

  abbrev pub InProfile : ℕ → Type 0
  InProfile a = InRing begin end a

  pub record IsWalk {S : Type 0} (w : Walk S) : Type 0 where
    pub current_in : InProfile w.current
    pub previous_in : InProfile w.previous
    pub length-buffer : length w.buffer ≡ end - begin

  abbrev pub IsVerdict : {S : Type 0} → Verdict S → Type 0
  IsVerdict (go_on w) = IsWalk w
  IsVerdict (stop w) = InProfile w.current
  IsVerdict (leave s) = Unit

  pub byte_here : (a : ℕ) → InProfile a → get_elem? memory a ≡ some (get_or memory a 0)
  byte_here a h = let z = suits.inside in get_elem?-eq-get_or memory a 0 (omega arith)

  gather_lem :
      {S : Type 0} (fingerprint : Option (List ℕ)) (callback : Callback S) (current len : ℕ)
      (buffer : List ℕ)
      → InProfile current
      → len < end - begin
      → length buffer ≡ end - begin
      → (buffer' : List ℕ) × (gather fingerprint callback layout memory current len buffer
          ≡ some buffer')
        × (length buffer' ≡ end - begin)
  unfolding gather
  gather_lem fingerprint callback current len buffer here short sz =
      let ring = suits.ring in
      let roomy = ring.roomy in
      let inside = suits.inside in
      let z : u32 (current + len) ≡ current + len = omega arith in
      elim (dec_lt end (current + len)) [
        | no fits ↦
            (let plain : ltb end (current + len) ≡ false = ground arith in
              let n = length-view current len memory (omega arith) in
              let bytes = view current len memory in
              (
                patch buffer 0 bytes,
                rw
                    (
                      z,
                      plain,
                      load-eq-some current len memory (omega arith),
                      store-eq-some buffer 0 bytes (omega arith),
                    )
                    refl,
                length-patch buffer 0 bytes (omega arith) ∙ sz,
              ))
        | yes past ↦
            (let wraps : ltb end (current + len) ≡ true = ground arith in
              let z' : sub_u32 end current ≡ end - current = omega arith in
              let z'' : sub_u32 (current + len) end ≡ current + len - end = omega arith in
              let front = view current (end - current) memory in
              let back = view begin (current + len - end) memory in
              let n = length-view current (end - current) memory (omega arith) in
              let n' = length-view begin (current + len - end) memory (omega arith) in
              let m = length-patch buffer 0 front (omega arith) in
              (
                patch (patch buffer 0 front) (length front) back,
                rw
                    (
                      z,
                      wraps,
                      z',
                      z'',
                      load-eq-some current (end - current) memory (omega arith),
                      load-eq-some begin (current + len - end) memory (omega arith),
                      store-eq-some buffer 0 front (omega arith),
                      store-eq-some (patch buffer 0 front) (length front) back (omega arith),
                    )
                    refl,
                length-patch (patch buffer 0 front) (length front) back (omega arith) ∙ m ∙ sz,
              ))
      ]

  fingerprint_here :
      (buffer : List ℕ)
      → length buffer ≡ end - begin
      → load layout.fp_offset 5 buffer ≡ some (view layout.fp_offset 5 buffer)
  fingerprint_here buffer sz =
      let z = suits.fingerprint_fits in load-eq-some layout.fp_offset 5 buffer (omega arith)

  is_known_lem :
      {S : Type 0} (fingerprint : Option (List ℕ)) (callback : Callback S) (buffer : List ℕ)
      → length buffer ≡ end - begin
      → (known : Bool) × (is_known fingerprint callback layout memory buffer ≡ some known)
  unfolding is_known
  is_known_lem none callback buffer sz = (false, refl)
  is_known_lem (some f) callback buffer sz =
      (same_bytes (view layout.fp_offset 5 buffer) f, rw (fingerprint_here buffer sz) refl)

  deliver_lem :
      {S : Type 0} (fingerprint : Option (List ℕ)) (callback : Callback S) (current len : ℕ)
      (buffer : List ℕ) (s : S)
      → InProfile current
      → len < end - begin
      → length buffer ≡ end - begin
      → (v : Verdict S) × (deliver fingerprint callback layout memory current len buffer s ≡ some v)
        × IsVerdict v
  unfolding deliver
  deliver_lem {S} fingerprint none current len buffer s here short sz =
      let (known, e0) = is_known_lem {S = S} fingerprint none buffer sz in
      elim (Bool-cases known) [
        | inl seen ↦ (leave s, rw (e0, seen) refl, tt)
        | inr unseen ↦ (
          go_on (record { current = current; previous = current; buffer = buffer; state = s }),
          rw (e0, unseen) refl,
          record { current_in = here; previous_in = here; length-buffer = sz },
        )
      ]
  deliver_lem fingerprint (some k) current len buffer s here short sz =
      let (known, e0) = is_known_lem fingerprint (some k) buffer sz in
      elim (Bool-cases known) [
        | inl seen ↦ (leave s, rw (e0, seen) refl, tt)
        | inr unseen ↦
            (let (more, s') = k s (view 0 len buffer) (view layout.fp_offset 5 buffer) in
              let d = load-eq-some 0 len buffer (omega arith) in
              let f = fingerprint_here buffer sz in
              elim (Bool-cases more) [
                | inl yes_more ↦ (
                  go_on (record {
                    current = current;
                    previous = current;
                    buffer = buffer;
                    state = s';
                  }),
                  rw (e0, unseen, d, f, yes_more) refl,
                  record { current_in = here; previous_in = here; length-buffer = sz },
                )
                | inr no_more ↦ (leave s', rw (e0, unseen, d, f, no_more) refl, tt)
              ])
      ]

  back_one : (a : ℕ) → InProfile a → InProfile ((if a == begin then end else a) - 1)
  back_one a here = let z = suits.ring in let z' = z.nonempty in ground arith

  pub round_lem :
      {S : Type 0} (fingerprint : Option (List ℕ)) (callback : Callback S) (w : Walk S)
      → IsWalk w
      → (v : Verdict S) × (round fingerprint callback layout memory w ≡ some v) × IsVerdict v
  unfolding round
  round_lem fingerprint callback w walk =
      let current = (if w.current == begin then end else w.current) - 1 in
      let here = back_one w.current walk.current_in in
      let e = byte_here current here in
      let (idx, e2, there, same) = decrement_lem begin end suits.ring current layout.peek here in
      let e3 = byte_here idx there in
      let (len, e4, reach, fits, short, positive) =
        ringbuffer_increment-distance begin end suits.ring current w.previous 0 here
          walk.previous_in in
      let (buffer, e5, sz) =
        gather_lem fingerprint callback current len w.buffer here (short refl) walk.length-buffer in
      let (v, e6, good) =
        deliver_lem fingerprint callback current len buffer w.state here (short refl) sz in
      elim (Bool-cases (get_or memory current 0 == 0x82)) [
        | inl marker ↦ (stop (record w { current = current }), rw (e, marker) refl, here)
        | inr other ↦ elim (Bool-cases (get_or memory idx 0 == 0x80)) [
          | inl dive ↦ (v, rw (e, other, e2, e3, dive, e4, e5, e6) refl, good)
          | inr inside ↦ (
            go_on (record w { current = current }),
            rw (e, other, e2, e3, inside) refl,
            record {
              current_in = here;
              previous_in = walk.previous_in;
              length-buffer = walk.length-buffer;
            },
          )
        ]
      ]
