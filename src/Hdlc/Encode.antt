-- ===== src/Hdlc/Encode.antt =====
-- What `dc_hdlc_write` of src/hdlc.c sends: one frame, in pieces that fit the write buffer.
use libdivecomputer.Base.{
  ℕ, ◌+◌, ◌≤◌, ◌<◌, ◌≡◌, inl, inr, sym, ap, ◌∙◌, bit_xor, Bool, ◌||◌, List, [], ◌∷◌, ◌++◌,
  append-nil, append_assoc, ◌==◌, if◌then◌else◌, Bool-cases, le→leb, lt→leb, length, length-append,
  dec_le, arith,
}
use libdivecomputer.Status.{success}
use libdivecomputer.Hdlc.{
  Port, Sent, end_byte, esc_byte, esc_bit, flush, put, put_stuffed, put_data, counted, and_finally,
  dc_hdlc_write,
}

abbrev pub special : ℕ → Bool
special c = c == end_byte || c == esc_byte

-- What stands for a byte inside of a frame.
unfoldable pub stuff : ℕ → List ℕ
stuff c = if special c then esc_byte ∷ bit_xor c esc_bit ∷ [] else c ∷ []

-- Byte stuffing.
unfoldable pub escape : List ℕ → List ℕ
unfolding stuff
escape [] = []
escape (c ∷ rest) = stuff c ++ escape rest

-- A frame: a delimiter, the stuffed bytes, a delimiter.
unfoldable pub encode : List ℕ → List ℕ
encode bytes = end_byte ∷ (escape bytes ++ end_byte ∷ [])

-- A base stream that takes every write of at most `n` bytes, and sends what it is given.
pub record Takes {S : Type 0} (port : Port S) (n : ℕ) (sent : S → List ℕ) : Type 0 where
  pub succeeds : (s : S) (bytes : List ℕ) → length bytes ≤ n → (port.write s bytes).0 ≡ success
  pub sends :
      (s : S) (bytes : List ℕ) → length bytes ≤ n → sent (port.write s bytes).1 ≡ sent s ++ bytes

module _ {S : Type 0} (port : Port S) (n : ℕ) (sent : S → List ℕ) (takes : Takes port n sent) where
  -- What has been sent and what waits in the buffer, together.
  abbrev pub Extends : List ℕ → S → List ℕ → List ℕ → S → Type 0
  Extends wbuf s bytes wbuf' s' =
      (length wbuf' < n) × (sent s' ++ wbuf' ≡ (sent s ++ wbuf) ++ bytes)

  flush_lem :
      (wbuf : List ℕ) (s : S)
      → length wbuf ≤ n
      → (s' : S) × (flush port n wbuf s ≡ (success, [], s')) × (sent s' ≡ sent s ++ wbuf)
  unfolding flush
  flush_lem wbuf s h =
      ((port.write s wbuf).1, rw (takes.succeeds s wbuf h, flush), takes.sends s wbuf h)

  put_lem :
      (c : ℕ) (wbuf : List ℕ) (s : S)
      → length wbuf < n
      → (wbuf' : List ℕ) × (s' : S) × (put port n c wbuf s ≡ (success, wbuf', s'))
        × Extends wbuf s (c ∷ []) wbuf' s'
  put_lem c wbuf s h = elim (dec_le n (length (wbuf ++ c ∷ []))) [
    | yes full ↦
        (let sz = length-append wbuf (c ∷ []) in
          let (s', e, log) = flush_lem (wbuf ++ c ∷ []) s (omega arith) in
          (
            [],
            s',
            put_flushes full ∙ e,
            (omega arith, append-nil (sent s') ∙ log ∙ sym (append_assoc (sent s) wbuf (c ∷ []))),
          ))
    | no room ↦ (
      wbuf ++ c ∷ [],
      s,
      put_keeps (omega arith),
      (omega arith, sym (append_assoc (sent s) wbuf (c ∷ []))),
    )
  ]
    where
      put_flushes :
          n ≤ length (wbuf ++ c ∷ []) → put port n c wbuf s ≡ flush port n (wbuf ++ c ∷ []) s
      put_flushes full = unfold put in rw (le→leb _ _ full)

      put_keeps : length (wbuf ++ c ∷ []) < n → put port n c wbuf s ≡ (success, wbuf ++ c ∷ [], s)
      put_keeps room = unfold put in rw (lt→leb _ _ room)

  stuffed_lem :
      (c : ℕ) (wbuf : List ℕ) (s : S)
      → length wbuf < n
      → (wbuf' : List ℕ) × (s' : S) × (put_stuffed port n c wbuf s ≡ (success, wbuf', s'))
        × Extends wbuf s (stuff c) wbuf' s'
  stuffed_lem c wbuf s h = elim (Bool-cases (special c)) [
    | inr plain ↦
        (let (w, t, e, (room, log)) = put_lem c wbuf s h in
          (w, t, (unfold put_stuffed in rw (plain, e)), (room, (unfold stuff in rw (plain, log)))))
    | inl escaped ↦
        (let (w, t, e, (room, log)) = put_lem esc_byte wbuf s h in
          let (w2, t2, e2, (room2, log2)) = put_lem (bit_xor c esc_bit) w t room in
          (
            w2,
            t2,
            (unfold put_stuffed in rw (escaped, e, e2)),
            (
              room2,
              (unfold stuff in
                  rw (
                    escaped,
                    log2,
                    log,
                    append_assoc (sent s ++ wbuf) (esc_byte ∷ []) (bit_xor c esc_bit ∷ []),
                  )),
            ),
          ))
  ]

  abbrev Put : List ℕ → ℕ → List ℕ → S → Type 0
  Put bytes k wbuf s =
      (wbuf' : List ℕ) × (s' : S) × (put_data port n bytes k wbuf s
        ≡ (success, k + length bytes, wbuf', s'))
      × Extends wbuf s (escape bytes) wbuf' s'

  put_data_step :
      (c : ℕ) (rest : List ℕ) (k : ℕ) (wbuf wbuf' : List ℕ) (s s' : S)
      → put_stuffed port n c wbuf s ≡ (success, wbuf', s')
      → put_data port n (c ∷ rest) k wbuf s ≡ put_data port n rest (k + 1) wbuf' s'
  unfolding put_data
  put_data_step c rest k wbuf wbuf' s s' e =
      ap (λ r. counted r k (λ w t. put_data port n rest (k + 1) w t)) e

  put_data_lem :
      (bytes : List ℕ) (k : ℕ) (wbuf : List ℕ) (s : S) → length wbuf < n → Put bytes k wbuf s
  unfolding put_data escape
  put_data_lem [] k wbuf s h = (
    wbuf,
    s,
    (let z : k ≡ k + 0 = omega arith in ap (λ m. (success, m, wbuf, s)) z),
    (h, sym (append-nil (sent s ++ wbuf))),
  )
  put_data_lem (c ∷ rest) k wbuf s h =
      let (w, t, e, (room, log)) = stuffed_lem c wbuf s h in
      let (w2, t2, e2, (room2, log2)) = put_data_lem rest (k + 1) w t room in
      let z : k + 1 + length rest ≡ k + length (c ∷ rest) = omega arith in
      (
        w2,
        t2,
        put_data_step c rest k wbuf w s t e ∙ e2 ∙ ap (λ m. (success, m, w2, t2)) z,
        (
          room2,
          log2
              ∙ ap (λ l. l ++ escape rest) log
              ∙ append_assoc (sent s ++ wbuf) (stuff c) (escape rest),
        ),
      )

  write_steps :
      (bytes : List ℕ) (s t t2 t3 : S) (w w2 : List ℕ)
      → put port n end_byte [] s ≡ (success, w, t)
      → put_data port n bytes 0 w t ≡ (success, 0 + length bytes, w2, t2)
      → flush port n (w2 ++ end_byte ∷ []) t2 ≡ (success, [], t3)
      → dc_hdlc_write port n bytes s ≡ (success, 0 + length bytes, [], t3)
  write_steps bytes s t t2 t3 w w2 e e2 e3 =
      unfold dc_hdlc_write in
      ap
        (λ r.
          and_finally (counted r 0 (λ w t. put_data port n bytes 0 w t))
            (λ w t. flush port n (w ++ end_byte ∷ []) t))
        e
      ∙ ap (λ r. and_finally r (λ w t. flush port n (w ++ end_byte ∷ []) t)) e2
      ∙ ap (λ (r : Sent S). (r.0, 0 + length bytes, r.1, r.2)) e3

  -- Over a base stream that takes writes of up to `n` bytes, with `n` the positive size of the write
  -- buffer, `dc_hdlc_write` succeeds, reports every byte as written, leaves an empty buffer, and has
  -- sent exactly one frame: a delimiter, the bytes with the special ones escaped, and a delimiter,
  -- wherever the buffer had to be flushed in between.
  pub dc_hdlc_write_lem :
      (bytes : List ℕ) (s : S)
      → 0 < n
      → (s' : S) × (dc_hdlc_write port n bytes s ≡ (success, length bytes, [], s'))
        × (sent s' ≡ sent s ++ encode bytes)
  dc_hdlc_write_lem bytes s h =
      let (w, t, e, (room, log)) = put_lem end_byte [] s h in
      let (w2, t2, e2, (room2, log2)) = put_data_lem bytes 0 w t room in
      let sz = length-append w2 (end_byte ∷ []) in
      let z : 0 + length bytes ≡ length bytes = omega arith in
      let (t3, e3, log3) = flush_lem (w2 ++ end_byte ∷ []) t2 (omega arith) in
      (
        t3,
        write_steps bytes s t t2 t3 w w2 e e2 e3 ∙ ap (λ m. (success, m, [], t3)) z,
        (unfold encode in
            log3
            ∙ sym (append_assoc (sent t2) w2 (end_byte ∷ []))
            ∙ ap (λ l. l ++ end_byte ∷ []) log2
            ∙ ap (λ l. (l ++ escape bytes) ++ end_byte ∷ []) log
            ∙ simp (append-nil, append_assoc)),
      )
