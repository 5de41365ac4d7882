-- ===== src/Rbstream/Backward.antt =====
-- `dc_rbstream_read_backward` of src/rbstream.c returns the bytes of the ring before its position.
use libdivecomputer.Base.{
  ℕ, zero, suc, ◌+◌, ◌-◌, ◌^◌, ◌≤◌, ◌<◌, ◌≡◌, inl, inr, refl, sym, ap, ap₂, ◌∙◌, List, [], ◌++◌,
  append-nil, append_assoc, Option, some, true, ==_iff, ◌==◌, ltb, if◌then◌else◌, take, drop,
  lt→ltb, le→ltb, arith,
}
use mathlib.Core.Path.{subst}
use libdivecomputer.Base.Words.{u32, sub_u32}
use libdivecomputer.Status.{Status, success}
use libdivecomputer.Rbstream.{
  Device, Rbstream, forward, backward, load_backward, refill_backward, round_length, forward_loop,
  backward_loop, dc_rbstream_read,
}
use libdivecomputer.Rbstream.Ring.{cells}
use libdivecomputer.Rbstream.Behind.{retreat, behind, behind_add, retreat_add}
use libdivecomputer.Rbstream.Refill.{IsLayout, Holds}
use libdivecomputer.Rbstream.Unload.{
  IsLoaded, IsSpent, StandsBefore, wrap_point, packet_length, copied-behind, returned,
  returned-StandsBefore,
}
use libdivecomputer.Rbstream.Refill.{round_length_lem}

module _ (mem : ℕ → ℕ) (begin end packet : ℕ) {S : Type 0} (device : Device S)
    (memory : Holds device mem begin end) (layout : IsLayout begin end packet) where
  unload_steps :
      (r : Rbstream) (a len : ℕ) (bytes : List ℕ) (s s' : S)
      → (if r.address == r.begin then r.end else r.address) ≡ a
      → (if ltb a (u32 (r.begin + r.packetsize)) then sub_u32 a r.begin else r.packetsize) ≡ len
      → device.read s (sub_u32 a len) r.packetsize ≡ (success, bytes, s')
      → refill_backward device r s ≡ (
        success,
        record r {
          address = sub_u32 a len;
          available = sub_u32 len r.skip;
          skip = 0;
          cache = bytes;
        },
        s',
      )
  unfolding refill_backward
  unload_steps r a len bytes s s' e e' e'' =
      ap
        (λ a.
          let len =
            if ltb a (u32 (r.begin + r.packetsize)) then sub_u32 a r.begin else r.packetsize in
          load_backward device r a len (device.read s (sub_u32 a len) r.packetsize))
        e
      ∙ ap (λ len. load_backward device r a len (device.read s (sub_u32 a len) r.packetsize)) e'
      ∙ ap (load_backward device r a len) e''

  unload_lem :
      (r : Rbstream) (p : ℕ) (s : S)
      → IsSpent mem begin end packet r p
      → (r' : Rbstream) × (s' : S) × (refill_backward device r s ≡ (success, r', s'))
        × IsLoaded mem begin end packet r' p
  unload_lem r p s spent =
      let (a, e, at, past, inside) = wrap_point mem begin end packet r p layout spent in
      let (len, e', small, fits, why) =
        packet_length mem begin end packet a layout (omega arith) inside in
      let skipped : r.skip < len = elim why [
        | inl z ↦ omega (arith, z)
        | inr z ↦ omega (arith, z)
      ] in
      let high : a - len + packet ≤ end = elim why [
        | inl z ↦ omega (arith, z)
        | inr z ↦ omega (arith, z)
      ] in
      let from : sub_u32 a len ≡ a - len = omega arith in
      let (s', read) = memory.holds s (a - len) packet (omega arith) high in
      let bytes = cells mem begin end packet (a - len) in
      (
        record r {
          address = sub_u32 a len;
          available = sub_u32 len r.skip;
          skip = 0;
          cache = bytes;
        },
        s',
        unload_steps r a len bytes s s' e
            (ap₂ (λ b n. if ltb a (u32 (b + n)) then sub_u32 a b else n) spent.begin_is
                spent.packet_is
              ∙ e')
            (ap₂ (λ f n. device.read s f n) from spent.packet_is ∙ read),
        record {
          begin_is = spent.begin_is;
          end_is = spent.end_is;
          packet_is = spent.packet_is;
          after_begin = omega arith;
          address_is = omega arith;
          inside = omega arith;
          no_skip = refl;
          some_left = omega arith;
          in_cache = omega arith;
          cached = ap (cells mem begin end packet) (sym from);
        },
      )

  fetched :
      (r : Rbstream) (p : ℕ) (s : S)
      → StandsBefore mem begin end packet r p
      → (r' : Rbstream) × (s' : S) × ((if r.available == 0
            then refill_backward device r s
            else (success, r, s))
          ≡ (success, r', s'))
        × IsLoaded mem begin end packet r' p
  fetched r p s (inl spent) =
      let (r', s', e, loaded) = unload_lem r p s spent in
      (
        r',
        s',
        (let z : (r.available == 0) ≡ true = (==_iff _ _).1 spent.empty in
            ap (λ b. if b then refill_backward device r s else (success, r, s)) z ∙ e),
        loaded,
      )
  fetched r p s (inr loaded) = (r, s, (let left = loaded.some_left in ground arith), loaded)

  abbrev pub Result : Type 0
  Result = Option (Status × List ℕ × Rbstream × S)

  abbrev copied : ℕ → Rbstream → List ℕ
  copied l r = take l (drop (sub_u32 r.available l) r.cache)

  loop_step :
      (fuel size nbytes : ℕ) (bytes : List ℕ) (r r' : Rbstream) (s s' : S)
      → nbytes < size
      → (if r.available == 0 then refill_backward device r s else (success, r, s))
        ≡ (success, r', s')
      → backward_loop device (suc fuel) size nbytes bytes r s
        ≡ backward_loop device fuel size
            (u32 (nbytes + round_length size nbytes r'))
            (copied (round_length size nbytes r') r' ++ bytes)
            (returned (round_length size nbytes r') r')
            s'
  unfolding backward_loop
  loop_step fuel size nbytes bytes r r' s s' more e = rw (lt→ltb nbytes size more) (
      ap
        (λ (t : Status × Rbstream × S). elim t.0 [
          | success ↦
              backward_loop device fuel size (u32 (nbytes + round_length size nbytes t.1))
                (copied (round_length size nbytes t.1) t.1 ++ bytes)
                (returned (round_length size nbytes t.1) t.1) t.2
          | error ↦ some (error, bytes, t.1, t.2)
        ])
        e)

  loop_ends :
      (fuel size : ℕ) (bytes : List ℕ) (r : Rbstream) (s : S)
      → backward_loop device fuel size size bytes r s ≡ some (success, bytes, r, s)
  unfolding backward_loop
  loop_ends zero size bytes r s = rw (le→ltb size size (omega arith))
  loop_ends (suc fuel) size bytes r s = rw (le→ltb size size (omega arith))

  joins :
      (bytes c : List ℕ) (l wanted p : ℕ)
      → c ≡ behind mem begin end l p
      → l + (wanted - l) ≡ wanted
      → behind mem begin end (wanted - l) (retreat mem begin end l p) ++ (c ++ bytes)
        ≡ behind mem begin end wanted p ++ bytes
  joins bytes c l wanted p e z =
      sym (append_assoc (behind mem begin end (wanted - l) (retreat mem begin end l p)) c bytes)
      ∙ ap (λ c. (behind mem begin end (wanted - l) (retreat mem begin end l p) ++ c) ++ bytes) e
      ∙ ap (λ b. b ++ bytes)
          (sym (behind_add mem begin end l (wanted - l) p) ∙ ap (λ k. behind mem begin end k p) z)

  abbrev pub Reads : Result → List ℕ → ℕ → Type 0
  Reads result bytes p =
      (r' : Rbstream) × (s' : S) × (result ≡ some (success, bytes, r', s'))
      × StandsBefore mem begin end packet r' p

  backward_loop_lem :
      (fuel size nbytes wanted : ℕ) (bytes : List ℕ) (r : Rbstream) (p : ℕ) (s : S)
      → size + packet < 2 ^ 32
      → nbytes + wanted ≡ size
      → wanted ≤ fuel
      → StandsBefore mem begin end packet r p
      → Reads
          (backward_loop device fuel size nbytes bytes r s)
          (behind mem begin end wanted p ++ bytes)
          (retreat mem begin end wanted p)
  unfolding behind retreat
  backward_loop_lem fuel size nbytes zero bytes r p s fits total enough stands = (
    r,
    s,
    (let z : nbytes ≡ size = omega arith in
        ap (λ k. backward_loop device fuel size k bytes r s) z ∙ loop_ends fuel size bytes r s),
    stands,
  )
  backward_loop_lem zero size nbytes (suc wanted) bytes r p s fits total enough stands =
      elim enough [ ]
  backward_loop_lem (suc fuel) size nbytes (suc wanted) bytes r p s fits total enough stands =
      let (r', s', e, loaded) = fetched r p s stands in
      let l = round_length size nbytes r' in
      let (positive, within, small) =
        round_length_lem size nbytes packet r' loaded.some_left loaded.in_cache (omega arith)
          fits in
      let taken = copied-behind mem begin end packet l r' p layout loaded small in
      let z : l + (suc wanted - l) ≡ suc wanted = omega arith in
      let (r2, s2, e2, stands2) =
        backward_loop_lem fuel size (u32 (nbytes + l)) (suc wanted - l) (copied l r' ++ bytes)
          (returned l r') (retreat mem begin end l p) s' fits (omega arith) (omega arith)
          (returned-StandsBefore mem begin end packet l r' p layout loaded positive small) in
      (
        r2,
        s2,
        loop_step fuel size nbytes bytes r r' s s' (omega arith) e
            ∙ e2
            ∙ ap (λ b. some (success, b, r2, s2))
                (joins bytes (copied l r') l (suc wanted) p taken z),
        subst (StandsBefore mem begin end packet r2)
            (sym (retreat_add mem begin end l (suc wanted - l) p)
              ∙ ap (λ k. retreat mem begin end k p) z)
            stands2,
      )

  -- On a device that holds a memory, and a backward stream that stands at a position of the ring, with
  -- no sum of sizes that wraps: a read succeeds, returns the bytes of the ring that lie before the
  -- position, in the order of their addresses, around the begin of the ring as often as it takes,
  -- and leaves the stream before them.
  pub dc_rbstream_read_before :
      (r : Rbstream) (p size : ℕ) (s : S)
      → r.direction ≡ backward
      → size + packet < 2 ^ 32
      → StandsBefore mem begin end packet r p
      → Reads
          (dc_rbstream_read device r size s)
          (behind mem begin end size p)
          (retreat mem begin end size p)
  unfolding dc_rbstream_read
  dc_rbstream_read_before r p size s back fits stands =
      let (r', s', e, stands') =
        backward_loop_lem size size 0 size [] r p s fits (omega arith) (omega arith) stands in
      (
        r',
        s',
        ap
              (λ d. elim d [
                | forward ↦ forward_loop device size size 0 [] r s
                | backward ↦ backward_loop device size size 0 [] r s
              ])
              back
            ∙ e
            ∙ ap (λ b. some (success, b, r', s')) (append-nil (behind mem begin end size p)),
        stands',
      )
