-- ===== src/Rbstream/Unload.antt =====
-- Where a stream of src/rbstream.c that reads backward stands, one packet at a time.
use libdivecomputer.Base.{
  ℕ, ◌+◌, ◌-◌, ◌≤◌, ◌<◌, ◌≡◌, ◌⊎◌, inl, inr, refl, sym, ap, ◌∙◌, ◌==◌, ltb, if◌then◌else◌, take,
  drop, dec_lt, arith,
}
use libdivecomputer.Base.Words.{u32, sub_u32}
use libdivecomputer.Rbstream.{Rbstream}
use libdivecomputer.Rbstream.Ring.{cells, take-cells, drop-cells}
use libdivecomputer.Rbstream.Behind.{retreat, behind, retreat_inside, retreat_wraps, behind-cells}
use libdivecomputer.Rbstream.Refill.{IsLayout}

-- The stream after `l` bytes at the end of its cache are handed out.
abbrev pub returned : ℕ → Rbstream → Rbstream
returned l r = record r { available = sub_u32 r.available l }

module _ (mem : ℕ → ℕ) (begin end packet : ℕ) where
  -- A stream at position `p` with bytes in its cache, the last of which are those before `p`, or
  -- without.
  pub record IsLoaded (r : Rbstream) (p : ℕ) : Type 0 where
    pub begin_is : r.begin ≡ begin
    pub end_is : r.end ≡ end
    pub packet_is : r.packetsize ≡ packet
    pub after_begin : begin ≤ r.address
    pub address_is : r.address + r.available ≡ p
    pub inside : p ≤ end
    pub no_skip : r.skip ≡ 0
    pub some_left : 0 < r.available
    pub in_cache : r.available ≤ packet
    pub cached : r.cache ≡ cells mem begin end packet r.address

  pub record IsSpent (r : Rbstream) (p : ℕ) : Type 0 where
    pub begin_is : r.begin ≡ begin
    pub end_is : r.end ≡ end
    pub packet_is : r.packetsize ≡ packet
    pub empty : r.available ≡ 0
    pub inside : r.address ≤ end
    pub short_skip : r.skip < packet
    pub at :
        ((p + r.skip ≡ r.address) × (begin < p)) ⊎ ((r.address ≡ begin) × (r.skip ≡ 0) × (p ≡ end))

  abbrev pub StandsBefore : Rbstream → ℕ → Type 0
  StandsBefore r p = IsSpent r p ⊎ IsLoaded r p

  pub wrap_point :
      (r : Rbstream) (p : ℕ)
      → IsLayout begin end packet
      → IsSpent r p
      → (a : ℕ) × ((if r.address == r.begin then r.end else r.address) ≡ a)
        × (p + r.skip ≡ a)
        × (begin < p)
        × (a ≤ end)
  wrap_point r p layout spent = elim spent.at [
    | inl (e, past) ↦ (r.address, ground arith, e, past, spent.inside)
    | inr (e, none_skipped, last) ↦ (end, ground arith, omega arith, omega arith, omega arith)
  ]

  pub packet_length :
      (a : ℕ)
      → IsLayout begin end packet
      → begin < a
      → a ≤ end
      → (len : ℕ) × ((if ltb a (u32 (begin + packet)) then sub_u32 a begin else packet) ≡ len)
        × (len ≤ packet)
        × (begin + len ≤ a)
        × ((len ≡ packet) ⊎ (begin + len ≡ a))
  packet_length a layout past inside = elim (dec_lt a (begin + packet)) [
    | yes short ↦ (a - begin, ground arith, omega arith, omega arith, inr (omega arith))
    | no fits ↦ (packet, ground arith, omega arith, omega arith, inl refl)
  ]

  pub copied-behind :
      (l : ℕ) (r : Rbstream) (p : ℕ)
      → IsLayout begin end packet
      → IsLoaded r p
      → l ≤ r.available
      → take l (drop (sub_u32 r.available l) r.cache) ≡ behind mem begin end l p
  copied-behind l r p layout loaded small =
      let e = loaded.address_is in
      let in_cache = loaded.in_cache in
      let after = loaded.after_begin in
      let z : sub_u32 r.available l ≡ r.available - l = omega arith in
      let z' : r.address + (r.available - l) ≡ p - l = omega arith in
      ap (λ k. take l (drop k r.cache)) z
      ∙ ap (λ c. take l (drop (r.available - l) c)) loaded.cached
      ∙ ap (take l) (drop-cells mem begin end (r.available - l) packet r.address (omega arith))
      ∙ take-cells mem begin end l (packet - (r.available - l)) (r.address + (r.available - l))
          (omega arith)
      ∙ ap (cells mem begin end l) z'
      ∙ sym (behind-cells mem begin end l p (omega arith))

  pub returned-StandsBefore :
      (l : ℕ) (r : Rbstream) (p : ℕ)
      → IsLayout begin end packet
      → IsLoaded r p
      → 0 < l
      → l ≤ r.available
      → StandsBefore (returned l r) (retreat mem begin end l p)
  returned-StandsBefore l r p layout loaded some_taken small = elim (dec_lt l r.available) [
    | yes part ↦ inr (
        let moved =
          retreat_inside mem begin end l p
            (let z = loaded.address_is in let z' = loaded.after_begin in omega arith) in
        record {
          begin_is = loaded.begin_is;
          end_is = loaded.end_is;
          packet_is = loaded.packet_is;
          after_begin = loaded.after_begin;
          address_is = omega arith;
          inside = omega arith;
          no_skip = loaded.no_skip;
          some_left = omega arith;
          in_cache = omega arith;
          cached = loaded.cached;
        })
    | no all ↦ inl (record {
      begin_is = loaded.begin_is;
      end_is = loaded.end_is;
      packet_is = loaded.packet_is;
      empty = omega arith;
      inside = omega arith;
      short_skip = omega arith;
      at = elim (dec_lt (begin + l) p) [
        | yes past ↦
            inl (let moved = retreat_inside mem begin end l p past in (omega arith, omega arith))
        | no at_begin ↦
            inr (
              omega arith,
              loaded.no_skip,
              retreat_wraps mem begin end l p some_taken (omega arith),
            )
      ];
    })
  ]
