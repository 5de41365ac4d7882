-- ===== src/Shearwater/Slip/Send.antt =====
-- `shearwater_common_slip_write` of src/shearwater_common.c: the packets that it sends.
use libdivecomputer.Base.{
  ◌*◌, ◌^◌, ℕ, ◌+◌, ◌-◌, ◌/◌, ◌≤◌, ◌<◌, ◌≡◌, inl, inr, refl, sym, ap, ◌∙◌, Bool, true, false, List,
  [], ◌∷◌, ◌++◌, append-nil, append_assoc, ◌==◌, if◌then◌else◌, Bool-cases, le→leb, lt→leb, length,
  length-append, dec_le, arith,
}
use libdivecomputer.Base.Words.{u8, u32}
use libdivecomputer.Status.{Status, success}
use libdivecomputer.Hdlc.{Sent, and_then}
use libdivecomputer.Hdlc.Chunks.{joined}
use libdivecomputer.Shearwater.Slip.{
  end_code, esc_code, esc_end, esc_esc, Wire, Link, send, slip_count, slip_header, slip_renew,
  slip_flush, slip_put, slip_put_stuffed, slip_put_all, shearwater_common_slip_write,
}
use libdivecomputer.Shearwater.Slip.Receive.{is_special, slip_stuff, slip_escape}
use libdivecomputer.Shearwater.Slip.Numbers.{
  header, room, numbered, AreFull, turn, turn-append, numbered-append, append-AreFull,
  joined-append, renew_lem, header-room, room_pos,
}

module _ (link : Link) (n : ℕ)
    (succeeds : (sent : List (List ℕ)) (packet : List ℕ)
      → (link.answer sent packet).0 ≡ success) where
  abbrev head : ℕ → List ℕ
  head k = header link.is_ble n k

  -- The packets with `body` and `bytes` that leave the buffer with `body'` behind its header.
  abbrev Sends : ℕ → List ℕ → Wire → List ℕ → Sent Wire → Type 0
  Sends k body wire bytes result =
      (bodies : List (List ℕ)) × (body' : List ℕ) × (wire' : Wire) × (result
        ≡ (success, head (turn k bodies) ++ body', wire'))
      × (length body' < room link.is_ble)
      × AreFull link.is_ble bodies
      × (wire'.sent ≡ wire.sent ++ numbered link.is_ble n k bodies)
      × (joined bodies ++ body' ≡ body ++ bytes)

  after : List ℕ → Wire → Wire
  after packet wire = record {
    sent = wire.sent ++ packet ∷ [];
    pending = wire.pending ++ (link.answer wire.sent packet).1;
  }

  send_lem : (wire : Wire) (packet : List ℕ) → send link wire packet ≡ (success, after packet wire)
  unfolding send after
  send_lem wire packet = ap (λ r. (r, after packet wire)) (succeeds wire.sent packet)

  flush_lem :
      (k : ℕ) (body : List ℕ) (wire : Wire)
      → slip_flush link (head k ++ body) wire
        ≡ (success, head (u8 (k + 1)) ++ [], after (head k ++ body) wire)
  unfolding slip_flush
  flush_lem k body wire =
      ap
        (λ (r : Status × Wire). elim r.0 [
          | success ↦ (success, slip_renew link.is_ble (head k ++ body), r.1)
          | e ↦ (e, head k ++ body, r.1)
        ])
        (send_lem wire (head k ++ body))
      ∙ ap (λ l. (success, l, after (head k ++ body) wire))
          (renew_lem link.is_ble n k body ∙ sym (append-nil (head (u8 (k + 1)))))

  put_flushes :
      (c k : ℕ) (body : List ℕ) (wire : Wire)
      → 32 ≤ length (head k ++ (body ++ c ∷ []))
      → slip_put link c (head k ++ body) wire
        ≡ (success, head (u8 (k + 1)) ++ [], after (head k ++ (body ++ c ∷ [])) wire)
  unfolding slip_put
  put_flushes c k body wire full =
      rw (append_assoc (head k) body (c ∷ []), le→leb _ _ full) (flush_lem k (body ++ c ∷ []) wire)

  put_keeps :
      (c k : ℕ) (body : List ℕ) (wire : Wire)
      → length (head k ++ (body ++ c ∷ [])) < 32
      → slip_put link c (head k ++ body) wire ≡ (success, head k ++ (body ++ c ∷ []), wire)
  unfolding slip_put
  put_keeps c k body wire short = rw (append_assoc (head k) body (c ∷ []), lt→leb _ _ short)

  one_sent :
      (k : ℕ) (body : List ℕ) (wire : Wire)
      → (after (head k ++ body) wire).sent ≡ wire.sent ++ numbered link.is_ble n k (body ∷ [])
  unfolding after numbered
  one_sent k body wire = refl

  whole :
      (c k : ℕ) (body : List ℕ)
      → length (head k ++ (body ++ c ∷ [])) + room link.is_ble ≡ length body + 33
  whole c k body =
      let sz = length-append (head k) (body ++ c ∷ []) in
      let sz2 = length-append body (c ∷ []) in let hr = header-room link.is_ble n k in omega arith

  put_lem :
      (c k : ℕ) (body : List ℕ) (wire : Wire)
      → length body < room link.is_ble
      → Sends k body wire (c ∷ []) (slip_put link c (head k ++ body) wire)
  put_lem c k body wire h =
      let sz = length-append body (c ∷ []) in
      let w = whole c k body in
      let pos = room_pos link.is_ble in
      elim (dec_le 32 (length (head k ++ (body ++ c ∷ [])))) [
        | yes full ↦ (
          (body ++ c ∷ []) ∷ [],
          [],
          after (head k ++ (body ++ c ∷ [])) wire,
          put_flushes c k body wire full,
          pos,
          (omega arith, tt),
          one_sent k (body ++ c ∷ []) wire,
          (unfold joined in simp (append-nil)),
        )
        | no short ↦ (
          [],
          body ++ c ∷ [],
          wire,
          put_keeps c k body wire (omega arith),
          omega arith,
          tt,
          (unfold numbered in sym (append-nil wire.sent)),
          (unfold joined in refl),
        )
      ]

  and_then_lem :
      (k : ℕ) (body : List ℕ) (wire : Wire) (xs ys : List ℕ) (first : Sent Wire)
      (next : List ℕ → Wire → Sent Wire)
      → Sends k body wire xs first
      → ((k' : ℕ) (body' : List ℕ) (wire' : Wire)
          → length body' < room link.is_ble
          → Sends k' body' wire' ys (next (head k' ++ body') wire'))
      → Sends k body wire (xs ++ ys) (and_then first next)
  and_then_lem k body wire xs ys first next (b1, body1, w1, e1, r1, f1, s1, j1) then_sends =
      let (b2, body2, w2, e2, r2, f2, s2, j2) = then_sends (turn k b1) body1 w1 r1 in
      (
        b1 ++ b2,
        body2,
        w2,
        ap (λ r. and_then r next) e1
            ∙ e2
            ∙ ap (λ m. (success, head m ++ body2, w2)) (sym (turn-append k b1 b2)),
        r2,
        append-AreFull link.is_ble b1 b2 f1 f2,
        s2
            ∙ ap (λ l. l ++ numbered link.is_ble n (turn k b1) b2) s1
            ∙ append_assoc wire.sent _ _
            ∙ ap (λ l. wire.sent ++ l) (sym (numbered-append link.is_ble n k b1 b2)),
        ap (λ l. l ++ body2) (joined-append b1 b2)
            ∙ append_assoc (joined b1) (joined b2) body2
            ∙ ap (λ l. joined b1 ++ l) j2
            ∙ sym (append_assoc (joined b1) body1 ys)
            ∙ ap (λ l. l ++ ys) j1
            ∙ append_assoc body xs ys,
      )

  put_stuffed_lem :
      (c k : ℕ) (body : List ℕ) (wire : Wire)
      → length body < room link.is_ble
      → Sends k body wire (slip_stuff c) (slip_put_stuffed link c (head k ++ body) wire)
  unfolding slip_put_stuffed slip_stuff
  put_stuffed_lem c k body wire h = elim (Bool-cases (is_special c)) [
    | inl special ↦ rw special (
        and_then_lem k body wire (esc_code ∷ []) _ _
          (λ b w. slip_put link (if c == end_code then esc_end else esc_esc) b w)
          (put_lem esc_code k body wire h)
          (λ k' body' wire'. put_lem (if c == end_code then esc_end else esc_esc) k' body' wire'))
    | inr plain ↦ rw plain (put_lem c k body wire h)
  ]

  put_all_lem :
      (bytes : List ℕ) (k : ℕ) (body : List ℕ) (wire : Wire)
      → length body < room link.is_ble
      → Sends k body wire (slip_escape bytes) (slip_put_all link bytes (head k ++ body) wire)
  unfolding slip_put_all slip_escape
  put_all_lem [] k body wire h = (
    [],
    body,
    wire,
    refl,
    h,
    tt,
    (unfold numbered in sym (append-nil wire.sent)),
    (unfold joined in sym (append-nil body)),
  )
  put_all_lem (c ∷ rest) k body wire h =
      and_then_lem k body wire (slip_stuff c) (slip_escape rest) _
        (λ b w. slip_put_all link rest b w) (put_stuffed_lem c k body wire h) (put_all_lem rest)

  -- What is in the buffer, and the END, make the last packet.
  last_lem :
      (wire w : Wire) (bytes body : List ℕ) (bodies : List (List ℕ))
      → w.sent ≡ wire.sent ++ numbered link.is_ble n 0 bodies
      → (after ((head (turn 0 bodies) ++ body) ++ end_code ∷ []) w).sent
        ≡ wire.sent ++ numbered link.is_ble n 0 (bodies ++ (body ++ end_code ∷ []) ∷ [])
  unfolding after numbered
  last_lem wire w bytes body bodies e =
      rw
        (
          e,
          numbered-append link.is_ble n 0 bodies,
          append_assoc wire.sent,
          append_assoc (head (turn 0 bodies)),
        )
        refl

slip_header_lem :
    (ble : Bool) (bytes : List ℕ)
    → slip_header ble bytes ≡ header ble (u8 ((slip_count bytes 1 + 32 - 1) / 32)) 0 ++ []
unfolding slip_header header
slip_header_lem true bytes = refl
slip_header_lem false bytes = refl

-- The same with the number of frames as it is computed.
pub packets_sent :
    (link : Link) (bytes : List ℕ) (wire : Wire)
    → ((sent : List (List ℕ)) (packet : List ℕ) → (link.answer sent packet).0 ≡ success)
    → (bodies : List (List ℕ)) × (last : List ℕ) × (wire' : Wire) × (shearwater_common_slip_write
          link bytes wire
        ≡ (success, wire'))
      × (wire'.sent
          ≡ wire.sent
            ++ numbered link.is_ble
                (u8 ((slip_count bytes 1 + 32 - 1) / 32))
                0
                (bodies ++ last ∷ []))
      × AreFull link.is_ble bodies
      × (length last ≤ room link.is_ble)
      × (joined bodies ++ last ≡ slip_escape bytes ++ end_code ∷ [])
packets_sent link bytes wire succeeds =
    let n = u8 ((slip_count bytes 1 + 32 - 1) / 32) in
    let (bodies, body, w, e, short, full, log, whole) =
      put_all_lem link n succeeds bytes 0 [] wire (room_pos link.is_ble) in
    let sz = length-append body (end_code ∷ []) in
    (
      bodies,
      body ++ end_code ∷ [],
      after link n succeeds ((header link.is_ble n (turn 0 bodies) ++ body) ++ end_code ∷ []) w,
      (unfold shearwater_common_slip_write in
          unfold slip_header in
          ap
            (λ (r : Sent Wire). elim r.0 [
              | success ↦ send link r.2 (r.1 ++ end_code ∷ [])
              | e ↦ (e, r.2)
            ])
            (ap (λ l. slip_put_all link bytes l wire) (slip_header_lem link.is_ble bytes) ∙ e)
          ∙ send_lem link n succeeds w _),
      last_lem link n succeeds wire w bytes body bodies log,
      full,
      omega arith,
      sym (append_assoc (joined bodies) body (end_code ∷ [])) ∙ ap (λ l. l ++ end_code ∷ []) whole,
    )

stuffed_length : (c : ℕ) → is_special c ≡ true → length (slip_stuff c) ≡ 2
unfolding slip_stuff
stuffed_length c special = rw special refl

plain_length : (c : ℕ) → is_special c ≡ false → length (slip_stuff c) ≡ 1
unfolding slip_stuff
plain_length c plain = rw plain refl

slip_count_lem :
    (bytes : List ℕ) (count : ℕ)
    → count + length (slip_escape bytes) < 2 ^ 32
    → slip_count bytes count ≡ count + length (slip_escape bytes)
unfolding slip_count slip_escape
slip_count_lem [] count small = omega arith
slip_count_lem (c ∷ rest) count small =
    let sz = length-append (slip_stuff c) (slip_escape rest) in
    elim (Bool-cases (is_special c)) [
      | inl special ↦
          (let two = stuffed_length c special in
            let z : u32 (count + 2) ≡ count + 2 = omega arith in
            rw (special, z) (slip_count_lem rest (count + 2) (omega arith) ∙ omega arith))
      | inr plain ↦
          (let one = plain_length c plain in
            let z : u32 (count + 1) ≡ count + 1 = omega arith in
            rw (plain, z) (slip_count_lem rest (count + 1) (omega arith) ∙ omega arith))
    ]

-- Over a link on which every write succeeds, for fewer than 2^32 bytes after stuffing,
-- `shearwater_common_slip_write` succeeds and sends the bytes, with the special ones escaped, followed
-- by END: cut into full packets, of 32 bytes or on BLE of 30 bytes behind a header, and a last one that
-- is at most full. On BLE the header of each packet has its own number, from 0, and before it the number
-- of packets that would hold these bytes if each held 32 of them, both modulo 256.
pub shearwater_common_slip_write_lem :
    (link : Link) (bytes : List ℕ) (wire : Wire)
    → ((sent : List (List ℕ)) (packet : List ℕ) → (link.answer sent packet).0 ≡ success)
    → length (slip_escape bytes) + 1 < 2 ^ 32
    → (bodies : List (List ℕ)) × (last : List ℕ) × (wire' : Wire) × (frames : ℕ)
      × (shearwater_common_slip_write link bytes wire ≡ (success, wire'))
      × (wire'.sent ≡ wire.sent ++ numbered link.is_ble (u8 frames) 0 (bodies ++ last ∷ []))
      × AreFull link.is_ble bodies
      × (length last ≤ room link.is_ble)
      × (joined bodies ++ last ≡ slip_escape bytes ++ end_code ∷ [])
      × (length (slip_escape bytes) + 1 ≤ 32 * frames)
      × (32 * frames < length (slip_escape bytes) + 1 + 32)
shearwater_common_slip_write_lem link bytes wire succeeds small =
    let (bodies, last, wire', e, log, full, short, whole) = packets_sent link bytes wire succeeds in
    let count = slip_count_lem bytes 1 (omega arith) in
    (
      bodies,
      last,
      wire',
      (slip_count bytes 1 + 32 - 1) / 32,
      e,
      log,
      full,
      short,
      whole,
      omega arith,
      omega arith,
    )
