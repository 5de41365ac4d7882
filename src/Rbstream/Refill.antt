-- ===== src/Rbstream/Refill.antt =====
-- One packet of `dc_rbstream_read_forward` of src/rbstream.c: where a stream stands, and that a refill
-- of its cache leaves it there.
use libdivecomputer.Base.{
  ℕ, ◌+◌, ◌-◌, ◌^◌, ◌≤◌, ◌<◌, ◌≡◌, ◌⊎◌, inl, inr, refl, ap, ap₂, ◌∙◌, List, ltb, ◌==◌,
  if◌then◌else◌, drop, dec_lt, arith,
}
use libdivecomputer.Base.Words.{u32, sub_u32}
use libdivecomputer.Status.{success}
use libdivecomputer.Rbstream.{Device, Rbstream, load_forward, refill_forward, round_length}
use libdivecomputer.Rbstream.Ring.{cells, drop-cells}

-- A ring of memory, and the size of a packet. No sum of an address and a packet wraps.
pub record IsLayout (begin end packet : ℕ) : Type 0 where
  pub nonempty : 0 < packet
  pub packet_fits : begin + packet ≤ end
  pub no_wrap : end + packet < 2 ^ 32

-- A device that returns the bytes of a memory for every read inside of the ring.
pub record Holds {S : Type 0} (device : Device S) (mem : ℕ → ℕ) (begin end : ℕ) : Type 0 where
  pub holds :
      (s : S) (a n : ℕ)
      → begin ≤ a
      → a + n ≤ end
      → (s' : S) × (device.read s a n ≡ (success, cells mem begin end n a, s'))

-- A round takes some bytes, no more than the cache has or than are wanted.
pub round_length_lem :
    (size nbytes packet : ℕ) (r : Rbstream)
    → 0 < r.available
    → r.available ≤ packet
    → nbytes < size
    → size + packet < 2 ^ 32
    → (0 < round_length size nbytes r)
      × (nbytes + round_length size nbytes r ≤ size)
      × (round_length size nbytes r ≤ r.available)
unfolding round_length
round_length_lem size nbytes packet r some_left in_cache more fits =
    elim (dec_lt size (nbytes + r.available)) [
      | yes past ↦ (ground arith, ground arith, ground arith)
      | no within ↦ (ground arith, ground arith, ground arith)
    ]

module _ (mem : ℕ → ℕ) (begin end packet : ℕ) where
  -- A stream over the ring that stands at position `p`: with bytes in its cache, which are the next
  -- bytes of the ring, or without.
  pub record Ready (r : Rbstream) (p : ℕ) : Type 0 where
    pub begin_is : r.begin ≡ begin
    pub end_is : r.end ≡ end
    pub packet_is : r.packetsize ≡ packet
    pub after_begin : begin ≤ p
    pub address_is : p + r.available ≡ r.address
    pub address_inside : r.address ≤ end
    pub no_skip : r.skip ≡ 0
    pub some_left : 0 < r.available
    pub in_cache : r.offset + r.available ≡ packet
    pub cached : drop r.offset r.cache ≡ cells mem begin end r.available p

  pub record Idle (r : Rbstream) (p : ℕ) : Type 0 where
    pub begin_is : r.begin ≡ begin
    pub end_is : r.end ≡ end
    pub packet_is : r.packetsize ≡ packet
    pub empty : r.available ≡ 0
    pub after_begin : begin ≤ r.address
    pub short_skip : r.skip < packet
    pub at :
        ((r.address + r.skip ≡ p) × (p < end)) ⊎ ((r.address ≡ end) × (r.skip ≡ 0) × (p ≡ begin))

  abbrev pub StandsAt : Rbstream → ℕ → Type 0
  StandsAt r p = Idle r p ⊎ Ready r p

  wrap_point :
      (r : Rbstream) (p : ℕ)
      → IsLayout begin end packet
      → Idle r p
      → (a : ℕ) × ((if r.address == r.end then r.begin else r.address) ≡ a)
        × (a + r.skip ≡ p)
        × (p < end)
        × (begin ≤ a)
  wrap_point r p layout idle = elim idle.at [
    | inl (e, inside) ↦ (r.address, ground arith, e, inside, idle.after_begin)
    | inr (e, none_skipped, first) ↦ (begin, ground arith, omega arith, omega arith, omega arith)
  ]

  packet_length :
      (a : ℕ)
      → IsLayout begin end packet
      → a < end
      → (len : ℕ) × ((if ltb end (u32 (a + packet)) then sub_u32 end a else packet) ≡ len)
        × (len ≤ packet)
        × (a + len ≤ end)
        × ((len ≡ packet) ⊎ (a + len ≡ end))
  packet_length a layout inside = elim (dec_lt end (a + packet)) [
    | yes past ↦ (end - a, ground arith, omega arith, omega arith, inr (omega arith))
    | no fits ↦ (packet, ground arith, omega arith, omega arith, inl refl)
  ]

  module _ {S : Type 0} (device : Device S) (memory : Holds device mem begin end) where
    refill_steps :
        (r : Rbstream) (a len : ℕ) (bytes : List ℕ) (s s' : S)
        → (if r.address == r.end then r.begin else r.address) ≡ a
        → (if ltb r.end (u32 (a + r.packetsize)) then sub_u32 r.end a else r.packetsize) ≡ len
        → device.read s (sub_u32 a (sub_u32 r.packetsize len)) r.packetsize ≡ (success, bytes, s')
        → refill_forward device r s ≡ (
          success,
          record r {
            address = u32 (a + len);
            offset = u32 (sub_u32 r.packetsize len + r.skip);
            available = sub_u32 len r.skip;
            skip = 0;
            cache = bytes;
          },
          s',
        )
    unfolding refill_forward
    refill_steps r a len bytes s s' e e' e'' =
        ap
          (λ a.
            let len =
              if ltb r.end (u32 (a + r.packetsize)) then sub_u32 r.end a else r.packetsize in
            load_forward device r a len
              (device.read s (sub_u32 a (sub_u32 r.packetsize len)) r.packetsize))
          e
        ∙ ap
            (λ len.
              load_forward device r a len
                (device.read s (sub_u32 a (sub_u32 r.packetsize len)) r.packetsize))
            e'
        ∙ ap (load_forward device r a len) e''

    pub refill_lem :
        (r : Rbstream) (p : ℕ) (s : S)
        → IsLayout begin end packet
        → Idle r p
        → (r' : Rbstream) × (s' : S) × (refill_forward device r s ≡ (success, r', s'))
          × Ready r' p
          × (r'.direction ≡ r.direction)
    refill_lem r p s layout idle =
        let (a, e, at, inside, after) = wrap_point r p layout idle in
        let (len, e', small, fits, why) = packet_length a layout (omega arith) in
        let skipped : r.skip < len = elim why [
          | inl z ↦ omega (arith, z)
          | inr z ↦ omega (arith, z)
        ] in
        let low : begin + (packet - len) ≤ a = elim why [
          | inl z ↦ omega (arith, z)
          | inr z ↦ omega (arith, z)
        ] in
        let from : sub_u32 a (sub_u32 r.packetsize len) ≡ a - (packet - len) = omega arith in
        let (s', read) = memory.holds s (a - (packet - len)) packet (omega arith) (omega arith) in
        let bytes = cells mem begin end packet (a - (packet - len)) in
        (
          record r {
            address = u32 (a + len);
            offset = u32 (sub_u32 r.packetsize len + r.skip);
            available = sub_u32 len r.skip;
            skip = 0;
            cache = bytes;
          },
          s',
          refill_steps r a len bytes s s' e
              (ap₂ (λ e n. if ltb e (u32 (a + n)) then sub_u32 e a else n) idle.end_is
                  idle.packet_is
                ∙ e')
              (ap₂ (λ f n. device.read s f n) from idle.packet_is ∙ read),
          record {
            begin_is = idle.begin_is;
            end_is = idle.end_is;
            packet_is = idle.packet_is;
            after_begin = omega arith;
            address_is = omega arith;
            address_inside = omega arith;
            no_skip = refl;
            some_left = omega arith;
            in_cache = omega arith;
            cached =
                (let o : u32 (sub_u32 r.packetsize len + r.skip) ≡ packet - len + r.skip =
                    omega arith in
                  let n : packet - (packet - len + r.skip) ≡ sub_u32 len r.skip = omega arith in
                  let z : a - (packet - len) + (packet - len + r.skip) ≡ p = omega arith in
                  rw o (
                    drop-cells mem begin end (packet - len + r.skip) packet (a - (packet - len))
                      (omega arith)
                    ∙ ap (λ k. cells mem begin end k (a - (packet - len) + (packet - len + r.skip)))
                        n
                    ∙ ap (cells mem begin end (sub_u32 len r.skip)) z));
          },
          refl,
        )
