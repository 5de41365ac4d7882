-- ===== src/Rbstream/Forward.antt =====
-- `dc_rbstream_read_forward` of src/rbstream.c returns the bytes of the ring in their order.
use libdivecomputer.Base.{
  refl, ℕ, zero, suc, ◌+◌, ◌-◌, ◌^◌, ◌≤◌, ◌<◌, ◌≡◌, inl, inr, sym, ap, ap₂, ◌∙◌, List, [], ◌++◌,
  append-nil, append_assoc, Option, some, true, ==_iff, ◌==◌, if◌then◌else◌, take, drop, dec_lt,
  lt→ltb, le→ltb, arith,
}
use mathlib.Core.Path.{subst}
use libdivecomputer.Base.Words.{u32, sub_u32}
use libdivecomputer.Status.{Status, success}
use libdivecomputer.Rbstream.{
  Device, Rbstream, Direction, forward, backward, refill_forward, round_length, forward_loop,
  backward_loop, dc_rbstream_read,
}
use libdivecomputer.Rbstream.Ring.{
  advance, ahead, cells, advance_inside, advance_wraps, ahead_add, advance_add, ahead-cells,
  take-cells, drop-cells, drop_add,
}
use libdivecomputer.Rbstream.Refill.{IsLayout, Holds, Ready, StandsAt, refill_lem, round_length_lem}

module _ (mem : ℕ → ℕ) (begin end packet : ℕ) where
  copied-ahead :
      (l : ℕ) (r : Rbstream) (p : ℕ)
      → Ready mem begin end packet r p
      → l ≤ r.available
      → take l (drop r.offset r.cache) ≡ ahead mem begin end l p
  copied-ahead l r p ready small =
      ap (take l) ready.cached
      ∙ take-cells mem begin end l r.available p small
      ∙ sym (
          ahead-cells mem begin end l p
            (let z = ready.address_is in let z' = ready.address_inside in omega arith))

  abbrev pub taken : ℕ → Rbstream → Rbstream
  taken l r = record r { offset = u32 (r.offset + l); available = sub_u32 r.available l }

  advance_to_end : (l p : ℕ) → 0 < l → p + l ≡ end → advance mem begin end l p ≡ begin
  advance_to_end zero p h e = elim h [ ]
  advance_to_end (suc l) p h e = advance_wraps mem begin end l p e

  rest_cached :
      (l : ℕ) (r : Rbstream) (p q : ℕ)
      → IsLayout begin end packet
      → Ready mem begin end packet r p
      → l ≤ r.available
      → q ≡ p + l
      → drop (taken l r).offset r.cache ≡ cells mem begin end (taken l r).available q
  rest_cached l r p q layout ready small moved =
      let z : u32 (r.offset + l) ≡ r.offset + l = omega arith in
      let z' : r.available - l ≡ sub_u32 r.available l = omega arith in
      ap (λ k. drop k r.cache) z
      ∙ drop_add r.offset l r.cache
      ∙ ap (drop l) ready.cached
      ∙ drop-cells mem begin end l r.available p small
      ∙ ap₂ (cells mem begin end) z' (sym moved)

  taken-StandsAt :
      (l : ℕ) (r : Rbstream) (p : ℕ)
      → IsLayout begin end packet
      → Ready mem begin end packet r p
      → 0 < l
      → l ≤ r.available
      → StandsAt mem begin end packet (taken l r) (advance mem begin end l p)
  taken-StandsAt l r p layout ready some_taken small = elim (dec_lt l r.available) [
    | yes part ↦ inr (
        let moved =
          advance_inside mem begin end l p
            (let z = ready.address_is in let z' = ready.address_inside in omega arith) in
        record {
          begin_is = ready.begin_is;
          end_is = ready.end_is;
          packet_is = ready.packet_is;
          after_begin = omega arith;
          address_is = omega arith;
          address_inside = ready.address_inside;
          no_skip = ready.no_skip;
          some_left = omega arith;
          in_cache = omega arith;
          cached = rest_cached l r p (advance mem begin end l p) layout ready small moved;
        })
    | no all ↦ inl (record {
      begin_is = ready.begin_is;
      end_is = ready.end_is;
      packet_is = ready.packet_is;
      empty = omega arith;
      after_begin = omega arith;
      short_skip = omega arith;
      at = elim (dec_lt (p + l) end) [
        | yes inside ↦
            inl (let moved = advance_inside mem begin end l p inside in (omega arith, omega arith))
        | no at_end ↦ inr (omega arith, ready.no_skip, advance_to_end l p some_taken (omega arith))
      ];
    })
  ]

  module _ {S : Type 0} (device : Device S) (memory : Holds device mem begin end)
      (layout : IsLayout begin end packet) where
    -- After the test on the cache there are bytes in it.
    fetched :
        (r : Rbstream) (p : ℕ) (s : S)
        → StandsAt mem begin end packet r p
        → (r' : Rbstream) × (s' : S) × ((if r.available == 0
              then refill_forward device r s
              else (success, r, s))
            ≡ (success, r', s'))
          × Ready mem begin end packet r' p
          × (r'.direction ≡ r.direction)
    fetched r p s (inl idle) =
        let (r', s', e, ready, same) =
          refill_lem mem begin end packet device memory r p s layout idle in
        (
          r',
          s',
          (let z : (r.available == 0) ≡ true = (==_iff _ _).1 idle.empty in
              ap (λ b. if b then refill_forward device r s else (success, r, s)) z ∙ e),
          ready,
          same,
        )
    fetched r p s (inr ready) = (r, s, (let left = ready.some_left in ground arith), ready, refl)

    abbrev pub Result : Type 0
    Result = Option (Status × List ℕ × Rbstream × S)

    loop_step :
        (fuel size nbytes : ℕ) (bytes : List ℕ) (r r' : Rbstream) (s s' : S)
        → nbytes < size
        → (if r.available == 0 then refill_forward device r s else (success, r, s))
          ≡ (success, r', s')
        → forward_loop device (suc fuel) size nbytes bytes r s
          ≡ forward_loop device fuel size
              (u32 (nbytes + round_length size nbytes r'))
              (bytes ++ take (round_length size nbytes r') (drop r'.offset r'.cache))
              (taken (round_length size nbytes r') r')
              s'
    unfolding forward_loop
    loop_step fuel size nbytes bytes r r' s s' more e = rw (lt→ltb nbytes size more) (
        ap
          (λ (t : Status × Rbstream × S). elim t.0 [
            | success ↦
                forward_loop device fuel size (u32 (nbytes + round_length size nbytes t.1))
                  (bytes ++ take (round_length size nbytes t.1) (drop t.1.offset t.1.cache))
                  (taken (round_length size nbytes t.1) t.1) t.2
            | error ↦ some (error, bytes, t.1, t.2)
          ])
          e)

    joins :
        (bytes copied : List ℕ) (l wanted p : ℕ)
        → copied ≡ ahead mem begin end l p
        → l + (wanted - l) ≡ wanted
        → (bytes ++ copied) ++ ahead mem begin end (wanted - l) (advance mem begin end l p)
          ≡ bytes ++ ahead mem begin end wanted p
    joins bytes copied l wanted p e z =
        append_assoc bytes copied _
        ∙ ap (λ c. bytes ++ (c ++ ahead mem begin end (wanted - l) (advance mem begin end l p))) e
        ∙ ap (λ b. bytes ++ b)
            (sym (ahead_add mem begin end l (wanted - l) p) ∙ ap (λ k. ahead mem begin end k p) z)

    loop_ends :
        (fuel size : ℕ) (bytes : List ℕ) (r : Rbstream) (s : S)
        → forward_loop device fuel size size bytes r s ≡ some (success, bytes, r, s)
    unfolding forward_loop
    loop_ends zero size bytes r s = rw (le→ltb size size (omega arith))
    loop_ends (suc fuel) size bytes r s = rw (le→ltb size size (omega arith))

    abbrev pub Reads : Result → List ℕ → ℕ → Direction → Type 0
    Reads result bytes p direction =
        (r' : Rbstream) × (s' : S) × (result ≡ some (success, bytes, r', s'))
        × StandsAt mem begin end packet r' p
        × (r'.direction ≡ direction)

    forward_loop_lem :
        (fuel size nbytes wanted : ℕ) (bytes : List ℕ) (r : Rbstream) (p : ℕ) (s : S)
        → size + packet < 2 ^ 32
        → nbytes + wanted ≡ size
        → wanted ≤ fuel
        → StandsAt mem begin end packet r p
        → Reads
            (forward_loop device fuel size nbytes bytes r s)
            (bytes ++ ahead mem begin end wanted p)
            (advance mem begin end wanted p)
            r.direction
    unfolding ahead advance
    forward_loop_lem fuel size nbytes zero bytes r p s fits total enough stands = (
      r,
      s,
      (let z : nbytes ≡ size = omega arith in
          ap (λ k. forward_loop device fuel size k bytes r s) z
          ∙ loop_ends fuel size bytes r s
          ∙ ap (λ l. some (success, l, r, s)) (sym (append-nil bytes))),
      stands,
      refl,
    )
    forward_loop_lem zero size nbytes (suc wanted) bytes r p s fits total enough stands =
        elim enough [ ]
    forward_loop_lem (suc fuel) size nbytes (suc wanted) bytes r p s fits total enough stands =
        let (r', s', e, ready, same) = fetched r p s stands in
        let l = round_length size nbytes r' in
        let (positive, within, small) =
          round_length_lem size nbytes packet r' ready.some_left
            (let sum = ready.in_cache in omega arith) (omega arith) fits in
        let copied = copied-ahead l r' p ready small in
        let z : l + (suc wanted - l) ≡ suc wanted = omega arith in
        let (r2, s2, e2, stands2, same2) =
          forward_loop_lem fuel size (u32 (nbytes + l)) (suc wanted - l)
            (bytes ++ take l (drop r'.offset r'.cache)) (taken l r') (advance mem begin end l p) s'
            fits (omega arith) (omega arith) (taken-StandsAt l r' p layout ready positive small) in
        (
          r2,
          s2,
          loop_step fuel size nbytes bytes r r' s s' (omega arith) e
              ∙ e2
              ∙ ap (λ b. some (success, b, r2, s2))
                  (joins bytes (take l (drop r'.offset r'.cache)) l (suc wanted) p copied z),
          subst (StandsAt mem begin end packet r2)
              (sym (advance_add mem begin end l (suc wanted - l) p)
                ∙ ap (λ k. advance mem begin end k p) z)
              stands2,
          same2 ∙ same,
        )

    -- On a device that holds a memory, and a forward stream that stands at a position of the ring, with
    -- no sum of sizes that wraps: a read succeeds, returns the next bytes of the ring from there on,
    -- across the packets and around the end of the ring as often as it takes, and leaves the stream
    -- at the position after them, still a forward one. So a read takes up where the one before stopped.
    pub dc_rbstream_read_lem :
        (r : Rbstream) (p size : ℕ) (s : S)
        → r.direction ≡ forward
        → size + packet < 2 ^ 32
        → StandsAt mem begin end packet r p
        → Reads
            (dc_rbstream_read device r size s)
            (ahead mem begin end size p)
            (advance mem begin end size p)
            forward
    unfolding dc_rbstream_read
    dc_rbstream_read_lem r p size s onwards fits stands =
        let (r', s', e, stands', same) =
          forward_loop_lem size size 0 size [] r p s fits (omega arith) (omega arith) stands in
        (
          r',
          s',
          ap
                (λ d. elim d [
                  | forward ↦ forward_loop device size size 0 [] r s
                  | backward ↦ backward_loop device size size 0 [] r s
                ])
                onwards
              ∙ e,
          stands',
          same ∙ onwards,
        )
