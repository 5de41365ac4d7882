-- ===== src/RingBuffer/Laws.antt =====
-- Positions computed by src/ringbuffer.c stay in the ring, and steps and distances fit together.
use libdivecomputer.Base.{
  ℕ, ◌+◌, ◌-◌, ◌*◌, ◌%◌, ◌^◌, ◌≤◌, ◌<◌, ◌≡◌, ◌≢◌, sym, ap, ◌∙◌, some, lt→ltb, arith,
}
use native.Mathlib.Nat.{
  add_assoc, add-zero, add-mul-mod_self_right, mod-add-mod, add-mod-mod, mod-eq_of_lt,
}
use libdivecomputer.RingBuffer.{
  modulo, distance, ringbuffer_normalize, ringbuffer_distance, ringbuffer_increment,
  ringbuffer_decrement,
}
use libdivecomputer.RingBuffer.Residues.{IsRing, InRing, IsSlot, modulo-IsSlot, slot_unique}

-- What each call returns, in a valid ring of `n` slots.
module _ (begin end : ℕ) (ring : IsRing begin end) where
  abbrev slots : ℕ
  slots = end - begin

  modulo_here : (x : ℕ) → IsSlot x slots begin (modulo x slots begin)
  modulo_here x = modulo-IsSlot x slots begin (omega arith) (omega arith)

  -- `ringbuffer_normalize` succeeds in every valid ring, and returns the position of the ring
  -- that is congruent to its argument modulo the ring's size.
  pub ringbuffer_normalize_lem :
      (a : ℕ)
      → (r : ℕ) × (ringbuffer_normalize a begin end ≡ some r)
        × InRing begin end r
        × (r % (end - begin) ≡ a % (end - begin))
  unfolding ringbuffer_normalize
  ringbuffer_normalize_lem a =
      let s = modulo_here a in
      (
        modulo a slots begin,
        rw (lt→ltb begin end ring.nonempty),
        (s.above, (let b = s.below in omega arith)),
        s.residue,
      )

  increment_lem :
      (a delta : ℕ)
      → InRing begin end a
      → (r : ℕ) × (ringbuffer_increment a delta begin end ≡ some r)
        × InRing begin end r
        × (r % slots ≡ (a + delta) % slots)
  unfolding ringbuffer_increment
  increment_lem a delta h =
      let m : delta % slots < slots = grind arith in
      let s = modulo_here (a + delta % slots) in
      let whole : (a + delta % slots) % 2 ^ 32 ≡ a + delta % slots = omega arith in
      (
        modulo (a + delta % slots) slots begin,
        rw (lt→ltb begin end ring.nonempty, whole),
        (s.above, (let b = s.below in omega arith)),
        s.residue ∙ add-mod-mod a delta slots,
      )

  pub decrement_lem :
      (a delta : ℕ)
      → InRing begin end a
      → (r : ℕ) × (ringbuffer_decrement a delta begin end ≡ some r)
        × InRing begin end r
        × ((r + delta) % slots ≡ a % slots)
  unfolding ringbuffer_decrement
  decrement_lem a delta h =
      let m : delta % slots < slots = grind arith in
      let x = a + slots - delta % slots in
      let s = modulo_here x in
      let whole : ((a + slots) % 2 ^ 32 + 2 ^ 32 - delta % slots) % 2 ^ 32 ≡ x = omega arith in
      (
        modulo x slots begin,
        rw (lt→ltb begin end ring.nonempty, whole),
        (s.above, (let b = s.below in omega arith)),
        sym (mod-add-mod (modulo x slots begin) slots delta)
            ∙ ap (λ t. (t + delta) % slots) s.residue
            ∙ mod-add-mod x slots delta
            ∙ sym (add-mod-mod x delta slots)
            ∙ ap (λ t. t % slots) (let e : x + delta % slots ≡ a + 1 * slots = omega arith in e)
            ∙ add-mul-mod_self_right a 1 slots,
      )

  same_slot : (r s : ℕ) → InRing begin end r → InRing begin end s → r % slots ≡ s % slots → r ≡ s
  same_slot r s hr hs e = slot_unique slots begin r s hr.0 (omega arith) hs.0 (omega arith) e

  residue_add : (r s t : ℕ) → r % slots ≡ s % slots → (r + t) % slots ≡ (s + t) % slots
  residue_add r s t e =
      sym (mod-add-mod r slots t) ∙ ap (λ u. (u + t) % slots) e ∙ mod-add-mod s slots t

  residue_cancel : (r s t : ℕ) → (r + t) % slots ≡ (s + t) % slots → r % slots ≡ s % slots
  residue_cancel r s t e =
      let enough : t ≤ t * slots = grind arith in
      sym (add-mul-mod_self_right r t slots)
      ∙ ap (λ u. u % slots) (let u : r + t * slots ≡ r + t + (t * slots - t) = omega arith in u)
      ∙ residue_add (r + t) (s + t) (t * slots - t) e
      ∙ ap (λ u. u % slots) (let u : s + t + (t * slots - t) ≡ s + t * slots = omega arith in u)
      ∙ add-mul-mod_self_right s t slots

  -- From a position of a valid ring, `ringbuffer_increment` succeeds by any number of bytes and
  -- stays in the ring, and `ringbuffer_decrement` by the same number comes back.
  pub ringbuffer_decrement-increment :
      (a delta : ℕ)
      → InRing begin end a
      → (b : ℕ) × (ringbuffer_increment a delta begin end ≡ some b)
        × InRing begin end b
        × (ringbuffer_decrement b delta begin end ≡ some a)
  ringbuffer_decrement-increment a delta h =
      let up = increment_lem a delta h in
      let down = decrement_lem up.0 delta up.2 in
      let shifted : (a + delta) % slots ≡ (down.0 + delta) % slots = sym up.3 ∙ sym down.3 in
      (
        up.0,
        up.1,
        up.2,
        down.1
            ∙ ap some (same_slot down.0 a down.2 h (residue_cancel down.0 a delta (sym shifted))),
      )

  -- Two increments from a position of a valid ring are one by the sum of the amounts.
  pub ringbuffer_increment_add :
      (a i j : ℕ)
      → InRing begin end a
      → (b : ℕ) × (ringbuffer_increment a i begin end ≡ some b)
        × (ringbuffer_increment b j begin end ≡ ringbuffer_increment a (i + j) begin end)
  ringbuffer_increment_add a i j h =
      let one = increment_lem a i h in
      let two = increment_lem one.0 j one.2 in
      let both = increment_lem a (i + j) h in
      (
        one.0,
        one.1,
        two.1
            ∙ ap some (
                same_slot two.0 both.0 two.2 both.2 (
                  two.3
                  ∙ residue_add one.0 (a + i) j one.3
                  ∙ ap (λ t. t % slots) (add_assoc a i j)
                  ∙ sym both.3))
            ∙ sym both.1,
      )

  -- The steps from one position to another, before the choice for equal positions.
  distance_residue :
      (a b mode : ℕ)
      → InRing begin end a
      → InRing begin end b
      → ((a + distance a b slots mode) % slots ≡ b % slots)
        × (distance a b slots mode ≤ slots)
        × (mode ≡ 0 → distance a b slots mode < slots)
        × (mode ≢ 0 → 0 < distance a b slots mode)
  unfolding distance
  distance_residue a b mode ha hb =
      let up : (b - a) % slots ≡ b - a = mod-eq_of_lt (omega arith) in
      let down : (a - b) % slots ≡ a - b = mod-eq_of_lt (omega arith) in
      let turn = add-mul-mod_self_right b 1 slots in
      let none_needed : a ≡ b → (a + 0) % slots ≡ b % slots =
        λ e. rw e (ap (λ t. t % slots) (add-zero b)) in
      let wrap : b < a → (a + (slots - (a - b))) % slots ≡ b % slots = λ l.
        ap (λ t. t % slots) (let e : a + (slots - (a - b)) ≡ b + 1 * slots = omega arith in e)
        ∙ turn in
      let direct : a ≤ b → (a + (b - a)) % slots ≡ b % slots =
        λ l. ap (λ t. t % slots) (let e : a + (b - a) ≡ b = omega arith in e) in
      let full : a ≡ b → (a + slots) % slots ≡ b % slots =
        λ l. ap (λ t. t % slots) (let e : a + slots ≡ b + 1 * slots = omega arith in e) ∙ turn in
      (ground (arith, none_needed, wrap, direct, full), ground arith, ground arith, ground arith)

  -- Between two positions of a valid ring `ringbuffer_distance` succeeds, and incrementing the
  -- first position by the distance gives the second. The distance is at most the ring's size: below
  -- it where equal positions mean an empty range (mode 0), and above 0 where they mean a full one.
  pub ringbuffer_increment-distance :
      (a b mode : ℕ)
      → InRing begin end a
      → InRing begin end b
      → (k : ℕ) × (ringbuffer_distance a b mode begin end ≡ some k)
        × (ringbuffer_increment a k begin end ≡ some b)
        × (k ≤ end - begin)
        × (mode ≡ 0 → k < end - begin)
        × (mode ≢ 0 → 0 < k)
  ringbuffer_increment-distance a b mode ha hb =
      let d = distance_residue a b mode ha hb in
      let step = increment_lem a (distance a b slots mode) ha in
      (
        distance a b slots mode,
        (unfold ringbuffer_distance in rw (lt→ltb begin end ring.nonempty)),
        step.1 ∙ ap some (same_slot step.0 b step.2 hb (step.3 ∙ d.0)),
        d.1,
        d.2,
        d.3,
      )
