-- ===== src/Rbstream/New.antt =====
-- `dc_rbstream_new` of src/rbstream.c: which requests are accepted, and where the new stream stands.
use libdivecomputer.Base.{
  ℕ, ◌+◌, ◌-◌, ◌*◌, ◌/◌, ◌%◌, ◌^◌, ◌≤◌, ◌<◌, ◌≡◌, ◌⊎◌, inl, inr, refl, ap, ◌∙◌, true, false, ◌||◌,
  List, some, none, ltb, ◌==◌, if◌then◌else◌, Bool-cases, dec_lt, arith,
}
use native.Mathlib.Nat.{
  div-add-mod', div-mul-le_self, lt-div-mul-add, le-div_iff_mul-le, div-lt_iff_lt-mul,
  mul-le-mul_right, mod-eq_of_lt,
}
use libdivecomputer.Base.Words.{u32, sub_u32}
use libdivecomputer.Status.{success, invalid_args}
use libdivecomputer.Rbstream.{
  Rbstream, Direction, forward, backward, ifloor, iceil, dc_rbstream_new,
}
use libdivecomputer.Rbstream.Refill.{StandsAt}
use libdivecomputer.Rbstream.Unload.{StandsBefore}

-- Rounding to multiples.
floor_le : (x n : ℕ) → 0 < n → x < 2 ^ 32 → ifloor x n ≤ x
unfolding ifloor
floor_le x n h small = let z = div-mul-le_self x n in omega arith

lt_floor : (x n : ℕ) → 0 < n → x < 2 ^ 32 → x < ifloor x n + n
unfolding ifloor
lt_floor x n h small =
    let z = div-mul-le_self x n in let z' = lt-div-mul-add {a = x} {b = n} h in omega arith

multiple : (b n : ℕ) → b % n ≡ 0 → b / n * n ≡ b
multiple b n e = let z = div-add-mod' b n in omega arith

le_floor : (b x n : ℕ) → 0 < n → x < 2 ^ 32 → b % n ≡ 0 → b ≤ x → b ≤ ifloor x n
unfolding ifloor
le_floor b x n h small e le =
    let m = multiple b n e in
    let q : b / n ≤ x / n = (le-div_iff_mul-le h).1 (omega arith) in
    let w = mul-le-mul_right n q in let z = div-mul-le_self x n in omega arith

ceil_value : (x n : ℕ) → 0 < n → x + n < 2 ^ 32 → iceil x n ≡ (x + n - 1) / n * n
unfolding iceil
ceil_value x n h small =
    let e : sub_u32 (u32 (x + n)) 1 ≡ x + n - 1 = omega arith in
    let z = div-mul-le_self (x + n - 1) n in ap (λ t. u32 (t / n * n)) e ∙ omega arith

le_ceil : (x n : ℕ) → 0 < n → x + n < 2 ^ 32 → x ≤ iceil x n
le_ceil x n h small =
    let e = ceil_value x n h small in
    let z = lt-div-mul-add {a = x + n - 1} {b = n} h in omega arith

ceil_lt : (x n : ℕ) → 0 < n → x + n < 2 ^ 32 → iceil x n < x + n
ceil_lt x n h small =
    let e = ceil_value x n h small in let z = div-mul-le_self (x + n - 1) n in omega arith

ceil_le : (b x n : ℕ) → 0 < n → x + n < 2 ^ 32 → b % n ≡ 0 → x ≤ b → iceil x n ≤ b
ceil_le b x n h small e le =
    let v = ceil_value x n h small in
    let m = multiple b n e in
    let q : (x + n - 1) / n < b / n + 1 =
      (div-lt_iff_lt-mul h).1
        (let s : (b / n + 1) * n ≡ b / n * n + n = grind arith in omega arith) in
    let w = mul-le-mul_right n (let q' : (x + n - 1) / n ≤ b / n = omega arith in q') in omega arith

-- A request that makes sense: the ring consists of whole pages, a packet too and is no larger than
-- the ring, and the address is inside.
pub record IsRequest (pagesize packetsize begin end address : ℕ) : Type 0 where
  pub page : 0 < pagesize
  pub packet : 0 < packetsize
  pub whole_packet : packetsize % pagesize ≡ 0
  pub whole_begin : begin % pagesize ≡ 0
  pub whole_end : end % pagesize ≡ 0
  pub fits : begin + packetsize ≤ end
  pub after_begin : begin ≤ address
  pub inside : address ≤ end

module _ (cache : List ℕ) (pagesize packetsize begin end address : ℕ)
    (no_wrap : end + packetsize < 2 ^ 32) where
  abbrev aligned : Direction → ℕ
  aligned forward = ifloor address pagesize
  aligned backward = iceil address pagesize

  abbrev skipped : Direction → ℕ
  skipped forward = sub_u32 address (ifloor address pagesize)
  skipped backward = sub_u32 (iceil address pagesize) address

  abbrev made : Direction → Rbstream
  made direction = record {
    direction = direction;
    pagesize = pagesize;
    packetsize = packetsize;
    begin = begin;
    end = end;
    address = aligned direction;
    offset = 0;
    available = 0;
    skip = skipped direction;
    cache = cache;
  }

  passes :
      IsRequest pagesize packetsize begin end address
      → ((pagesize == 0 || packetsize == 0) ≡ false)
        × (ltb 0 (packetsize % pagesize) ≡ false)
        × ((ltb 0 (begin % pagesize) || ltb 0 (end % pagesize)) ≡ false)
        × (ltb end begin ≡ false)
        × (ltb (sub_u32 end begin) packetsize ≡ false)
        × ((ltb address begin || ltb end address) ≡ false)
  passes ok = (ground arith, ground arith, ground arith, ground arith, ground arith, ground arith)

  accepted :
      (direction : Direction)
      → IsRequest pagesize packetsize begin end address
      → dc_rbstream_new true cache pagesize packetsize begin end address direction
        ≡ (success, some (made direction))
  unfolding dc_rbstream_new
  accepted forward ok = let (t1, t2, t3, t4, t5, t6) = passes ok in rw (t1, t2, t3, t4, t5, t6)
  accepted backward ok = let (t1, t2, t3, t4, t5, t6) = passes ok in rw (t1, t2, t3, t4, t5, t6)

  refused :
      (direction : Direction)
      → ((dc_rbstream_new true cache pagesize packetsize begin end address direction
            ≡ (invalid_args, none))
          × ¬ IsRequest pagesize packetsize begin end address)
        ⊎ IsRequest pagesize packetsize begin end address
  unfolding dc_rbstream_new
  refused direction = elim (Bool-cases (pagesize == 0 || packetsize == 0)) [
    | inl t1 ↦ inl (rw t1, λ ok. cc ((passes ok).0))
    | inr f1 ↦ rw f1 (elim (Bool-cases (ltb 0 (packetsize % pagesize))) [
      | inl t2 ↦ inl (rw t2, λ ok. cc ((passes ok).1))
      | inr f2 ↦ rw f2 (elim (Bool-cases (ltb 0 (begin % pagesize) || ltb 0 (end % pagesize))) [
        | inl t3 ↦ inl (rw t3, λ ok. cc ((passes ok).2))
        | inr f3 ↦ rw f3 (elim (Bool-cases (ltb end begin)) [
          | inl t4 ↦ inl (rw t4, λ ok. cc ((passes ok).3))
          | inr f4 ↦ rw f4 (elim (Bool-cases (ltb (sub_u32 end begin) packetsize)) [
            | inl t5 ↦ inl (rw t5, λ ok. cc ((passes ok).4))
            | inr f5 ↦ rw f5 (elim (Bool-cases (ltb address begin || ltb end address)) [
              | inl t6 ↦ inl (rw t6, λ ok. cc ((passes ok).5))
              | inr f6 ↦ inr (record {
                page = ground arith;
                packet = ground arith;
                whole_packet = ground arith;
                whole_begin = ground arith;
                whole_end = ground arith;
                fits = ground arith;
                after_begin = ground arith;
                inside = ground arith;
              })
            ])
          ])
        ])
      ])
    ])
  ]

  page_le_packet : IsRequest pagesize packetsize begin end address → pagesize ≤ packetsize
  page_le_packet ok = elim (dec_lt packetsize pagesize) [
    | yes small ↦
        (let e = mod-eq_of_lt small in let w = ok.whole_packet in let h = ok.packet in omega arith)
    | no fits ↦ omega arith
  ]

  -- The address itself, with the two ends of the ring taken for the same position.
  abbrev pub position : Direction → ℕ
  position forward = if address == end then begin else address
  position backward = if address == begin then end else address

  abbrev pub Stands : (ℕ → ℕ) → Rbstream → Direction → Type 0
  Stands mem r forward = StandsAt mem begin end packetsize r (position forward)
  Stands mem r backward = StandsBefore mem begin end packetsize r (position backward)

  made-Stands :
      (mem : ℕ → ℕ) (direction : Direction)
      → IsRequest pagesize packetsize begin end address
      → Stands mem (made direction) direction
  made-Stands mem forward ok =
      let page = page_le_packet ok in
      let low = floor_le address pagesize ok.page (omega arith) in
      let high = lt_floor address pagesize ok.page (omega arith) in
      let from =
        le_floor begin address pagesize ok.page (omega arith) ok.whole_begin ok.after_begin in
      inl (record {
        begin_is = refl;
        end_is = refl;
        packet_is = refl;
        empty = refl;
        after_begin = from;
        short_skip = omega arith;
        at = elim (dec_lt address end) [
          | yes before ↦
              inl (let z : position forward ≡ address = ground arith in (omega arith, omega arith))
          | no at_end ↦ inr (
              let whole =
                le_floor end address pagesize ok.page (omega arith) ok.whole_end (omega arith) in
              let z : position forward ≡ begin = ground arith in (omega arith, omega arith, z))
        ];
      })
  made-Stands mem backward ok =
      let page = page_le_packet ok in
      let low = le_ceil address pagesize ok.page (omega arith) in
      let high = ceil_lt address pagesize ok.page (omega arith) in
      let to = ceil_le end address pagesize ok.page (omega arith) ok.whole_end ok.inside in
      inl (record {
        begin_is = refl;
        end_is = refl;
        packet_is = refl;
        empty = refl;
        inside = to;
        short_skip = omega arith;
        at = elim (dec_lt begin address) [
          | yes past ↦
              inl (let z : position backward ≡ address = ground arith in (omega arith, omega arith))
          | no at_begin ↦ inr (
              let whole =
                ceil_le begin address pagesize ok.page (omega arith) ok.whole_begin (omega arith) in
              let z : position backward ≡ end = ground arith in (omega arith, omega arith, z))
        ];
      })

  -- With memory for the stream and sizes that do not wrap: `dc_rbstream_new` refuses every request
  -- that makes no sense as invalid, and on every other one it succeeds with a stream in the direction
  -- asked for that stands at the address asked for, whether or not that lies on a page.
  pub dc_rbstream_new_lem :
      (mem : ℕ → ℕ) (direction : Direction)
      → ((dc_rbstream_new true cache pagesize packetsize begin end address direction
            ≡ (invalid_args, none))
          × ¬ IsRequest pagesize packetsize begin end address)
        ⊎ ((r : Rbstream) × (dc_rbstream_new true cache pagesize packetsize begin end address
                direction
              ≡ (success, some r))
            × IsRequest pagesize packetsize begin end address
            × (r.direction ≡ direction)
            × Stands mem r direction)
  dc_rbstream_new_lem mem direction = elim (refused direction) [
    | inl bad ↦ inl bad
    | inr ok ↦ inr (made direction, accepted direction ok, ok, refl, made-Stands mem direction ok)
  ]
