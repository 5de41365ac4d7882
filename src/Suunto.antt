-- ===== src/Suunto.antt =====
-- src/suunto_common.c: the dives in the profile ring of Suunto computers. The block that malloc
-- returns and the callback of the application are parameters. `none` is a failed assert, or an access
-- outside of the memory or of the block.
pub mod Rounds
pub mod Safe
mod Tests
use libdivecomputer.Base.{
  ℕ, zero, suc, ◌+◌, ◌-◌, Bool, true, false, ◌||◌, ◌&&◌, not, List, [], ◌∷◌, Option, none, some,
  ltb, ◌==◌, if◌then◌else◌, length, take, drop, get_elem?, replicate,
}
use libdivecomputer.Base.Words.{u32, sub_u32}
use libdivecomputer.Base.Blocks.{load, store}
use libdivecomputer.Status.{Status, success, invalid_args, data_format, no_memory}
use libdivecomputer.Array.{same_bytes}
use libdivecomputer.Array.Integers.{array_uint16_be}
use libdivecomputer.Buffer.{◌>>=◌}
use libdivecomputer.RingBuffer.{ringbuffer_distance, ringbuffer_decrement}

pub record Layout : Type 0 where
  pub eop : ℕ
  pub rb_profile_begin : ℕ
  pub rb_profile_end : ℕ
  pub fp_offset : ℕ
  pub peek : ℕ

-- The fingerprint of five bytes, when the device is set up.
unfoldable pub suunto_common_device_init : List ℕ
suunto_common_device_init = replicate 5 0

-- The fingerprint after the call.
unfoldable pub suunto_common_device_set_fingerprint : List ℕ → List ℕ → Status × List ℕ
suunto_common_device_set_fingerprint fingerprint bytes =
    let size = length bytes in
    if not (size == 0) && not (size == 5)
    then (invalid_args, fingerprint)
    else (success, (if size == 0 then replicate 5 0 else bytes))

-- The walk through the ring: where it is, where the last dive starts, the block, and the state of the
-- application.
pub record Walk (S : Type 0) : Type 0 where
  pub current : ℕ
  pub previous : ℕ
  pub buffer : List ℕ
  pub state : S

-- The loop goes on, breaks, or the function returns.
pub data Verdict (S : Type 0) : Type 0 where
  go_on : Walk S → Verdict S
  stop : Walk S → Verdict S
  leave : S → Verdict S

module _ {S : Type 0} (fingerprint : Option (List ℕ))
    (callback : Option (S → List ℕ → List ℕ → Bool × S)) (layout : Layout) (memory : List ℕ) where
  -- The search for the end-of-profile marker, by the number of bytes left.
  unfoldable pub find_eop : ℕ → ℕ → Option ℕ
  find_eop zero eop = some eop
  find_eop (suc left) eop = do
    c ← get_elem? memory eop
    let rest = find_eop left (eop + 1)
    if c == 0x82 then some eop else rest

  -- The bytes of a dive go to the front of the block.
  unfoldable pub gather : ℕ → ℕ → List ℕ → Option (List ℕ)
  gather current len buffer =
      let to = u32 (current + len) in
      let whole = load current len memory >>= λ bytes. store buffer 0 bytes in
      let wrapped = load current (sub_u32 layout.rb_profile_end current) memory >>= λ front.
      load layout.rb_profile_begin (sub_u32 to layout.rb_profile_end) memory >>= λ back.
      store buffer 0 front >>= λ buffer'. store buffer' (length front) back in
      if ltb layout.rb_profile_end to then wrapped else whole

  unfoldable pub is_known : List ℕ → Option Bool
  is_known buffer = elim fingerprint [
    | none ↦ some false
    | some f ↦ load layout.fp_offset 5 buffer >>= λ bytes. some (same_bytes bytes f)
  ]

  -- The comparison of the fingerprint and the callback.
  unfoldable pub deliver : ℕ → ℕ → List ℕ → S → Option (Verdict S)
  unfolding is_known
  deliver current len buffer s = do
    known ← is_known buffer
    let next : Walk S = record { current = current; previous = current; buffer = buffer; state = s }
    let called : Option (Verdict S) = elim callback [
      | none ↦ some (go_on next)
      | some k ↦ load 0 len buffer >>= λ dive. load layout.fp_offset 5 buffer >>= λ bytes.
          (let (more, s') = k s dive bytes in
            if more then some (go_on (record next { state = s' })) else some (leave s'))
    ]
    if known then some (leave s) else called

  -- One round of the loop.
  unfoldable pub round : Walk S → Option (Verdict S)
  unfolding gather deliver
  round w =
      let current =
        (if w.current == layout.rb_profile_begin then layout.rb_profile_end else w.current) - 1 in
      let moved : Walk S = record w { current = current } in
      let dive =
        ringbuffer_distance current w.previous 0 layout.rb_profile_begin layout.rb_profile_end
        >>= λ len. gather current len w.buffer >>= λ buffer. deliver current len buffer w.state in
      let inside =
        ringbuffer_decrement current layout.peek layout.rb_profile_begin layout.rb_profile_end
        >>= λ idx. get_elem? memory idx >>= λ c. (if c == 0x80 then dive else some (go_on moved)) in
      get_elem? memory current >>= λ c. (if c == 0x82 then some (stop moved) else inside)

  -- The loop, by the number of rounds left, and the test behind it.
  unfoldable pub end_test : Walk S → Option (Status × S)
  end_test w = get_elem? memory w.current >>= λ c.
      (if c == 0x82 then some (success, w.state) else some (data_format, w.state))

  unfoldable pub walk_loop : ℕ → Walk S → Option (Status × S)
  unfolding round end_test
  walk_loop zero w = end_test w
  walk_loop (suc left) w = round w >>= λ v. elim v [
    | go_on w' ↦ walk_loop left w'
    | stop w' ↦ end_test w'
    | leave s ↦ some (success, s)
  ]

  unfoldable pub suunto_common_extract_dives : (ℕ → Option (List ℕ)) → S → Option (Status × S)
  unfolding find_eop walk_loop
  suunto_common_extract_dives malloc s =
      let begin = layout.rb_profile_begin in
      let end = layout.rb_profile_end in
      let found : Option ℕ =
        if layout.eop == 0
        then find_eop (end - begin) begin
        else array_uint16_be (drop layout.eop memory) in
      let size = sub_u32 end begin in
      found >>= λ eop.
      (let walked : Option (Status × S) = elim (malloc size) [
        | none ↦ some (no_memory, s)
        | some buffer ↦
            walk_loop size (record { current = eop; previous = eop; buffer = buffer; state = s })
      ] in
        let checked : Option (Status × S) =
          get_elem? memory eop >>= λ c. (if c == 0x82 then walked else some (data_format, s)) in
        if ltb eop begin || not (ltb eop end) then some (data_format, s) else checked)
