-- ===== src/Shearwater/Transfer.antt =====
-- The requests and responses of src/shearwater_common.c: `shearwater_common_transfer`, the read and
-- the write by identifier, and `shearwater_common_download`. Whether the application has cancelled the
-- operation is a parameter, asked with what has been sent. Progress events are left out.
pub mod Answers
pub mod Identifiers
pub mod Storing
pub mod Download
mod Tests
use libdivecomputer.Base.{
  ℕ, zero, suc, ◌+◌, ◌-◌, ◌%◌, ◌^◌, Bool, true, false, ◌||◌, ◌&&◌, not, List, [], ◌∷◌, ◌++◌, Option,
  none, some, ltb, ◌==◌, if◌then◌else◌, length, take, drop, get_or,
}
use libdivecomputer.Base.Words.{u8, u32, ◌>>>◌}
use libdivecomputer.Base.Blocks.{load, store}
use libdivecomputer.Status.{
  Status, success, unsupported, invalid_args, no_memory, protocol, cancelled,
}
use libdivecomputer.Buffer.{Buffer, Heap, ◌>>=◌, dc_buffer_clear, dc_buffer_append}
use libdivecomputer.Shearwater.{
  checked, shearwater_common_decompress_xor, shearwater_common_decompress_lre,
}
use libdivecomputer.Shearwater.Slip.{
  Wire, Link, Received, shearwater_common_slip_write, shearwater_common_slip_read,
}

abbrev pub sz_packet : ℕ
sz_packet = 254

abbrev pub rdbi_request : ℕ
rdbi_request = 0x22

abbrev pub rdbi_response : ℕ
rdbi_response = 0x62

abbrev pub wdbi_request : ℕ
wdbi_request = 0x2e

abbrev pub wdbi_response : ℕ
wdbi_response = 0x6e

abbrev pub nak : ℕ
nak = 0x7f

pub record Session : Type 0 where
  pub link : Link
  pub is_cancelled : List (List ℕ) → Bool

-- A transfer: status, the bytes copied to the output, as many as `*actual` says, and the stream.
pub record Transferred : Type 0 where
  pub status : Status
  pub output : List ℕ
  pub wire : Wire

unfoldable pub request_packet : List ℕ → List ℕ
request_packet input = 0xff ∷ 0x01 ∷ u8 (length input + 1) ∷ 0x00 ∷ input

-- The two tests of the response packet, and the bytes behind its header.
unfoldable pub response_of : ℕ → List ℕ → Option (List ℕ)
response_of osize packet =
    let n = length packet in
    let len = get_or packet 2 0 in
    if ltb n 4
      || not (get_or packet 0 0 == 0x01)
      || not (get_or packet 1 0 == 0xff)
      || not (get_or packet 3 0 == 0x00)
    then none
    else if ltb len 1 || not (len - 1 + 4 == n) || ltb osize (len - 1)
    then none
    else some (take (len - 1) (drop 4 packet))

unfoldable pub receive : ℕ → List (List ℕ) → Received → Transferred
unfolding response_of
receive osize sent got =
    let wire : Wire = record { sent = sent; pending = got.pending } in
    elim got.status [
      | success ↦ elim (response_of osize got.bytes) [
        | some output ↦ record { status = success; output = output; wire = wire }
        | none ↦ record { status = protocol; output = []; wire = wire }
      ]
      | e ↦ record { status = e; output = []; wire = wire }
    ]

unfoldable pub shearwater_common_transfer : Session → List ℕ → ℕ → Wire → Transferred
unfolding request_packet receive
shearwater_common_transfer s input osize wire =
    if ltb sz_packet (length input) || ltb sz_packet osize
    then record { status = invalid_args; output = []; wire = wire }
    else if s.is_cancelled wire.sent
    then record { status = cancelled; output = []; wire = wire }
    else let (status, wire') = shearwater_common_slip_write s.link (request_packet input) wire in
      elim status [
        | success ↦
            if osize == 0
            then record { status = success; output = []; wire = wire' }
            else receive osize wire'.sent
                (shearwater_common_slip_read s.link.is_ble (sz_packet + 4) wire'.pending)
        | e ↦ record { status = e; output = []; wire = wire' }
      ]

-- The test of a response that begins with an identifier.
unfoldable pub check_id : ℕ → ℕ → ℕ → List ℕ → Status
check_id request response id output =
    let n = length output in
    if ltb n 3
      || not (get_or output 0 0 == response)
      || not (get_or output 1 0 == u8 (id >>> 8))
      || not (get_or output 2 0 == u8 id)
    then if n == 3 && get_or output 0 0 == nak && get_or output 1 0 == request
      then unsupported
      else protocol
    else success

-- What the response leads to. `exact` is a call without `actual`, for which the size has to be right.
unfoldable pub rdbi_result : ℕ → ℕ → Bool → Transferred → Transferred
unfolding check_id
rdbi_result id size exact r =
    let len = length r.output - 3 in
    let found : Transferred =
      if ltb size len || (exact && not (len == size))
      then record r { status = protocol; output = [] }
      else record r { output = drop 3 r.output } in
    elim r.status [
      | success ↦ elim (check_id rdbi_request rdbi_response id r.output) [
        | success ↦ found
        | e ↦ record r { status = e; output = [] }
      ]
      | e ↦ record r { status = e; output = [] }
    ]

unfoldable pub shearwater_common_rdbi : Session → ℕ → ℕ → Bool → Wire → Transferred
unfolding shearwater_common_transfer rdbi_result
shearwater_common_rdbi s id size exact wire =
    rdbi_result id size exact
      (shearwater_common_transfer s (rdbi_request ∷ u8 (id >>> 8) ∷ u8 id ∷ []) sz_packet wire)

unfoldable pub wdbi_result : ℕ → Transferred → Status × Wire
unfolding check_id
wdbi_result id r = elim r.status [
  | success ↦ (check_id wdbi_request wdbi_response id r.output, r.wire)
  | e ↦ (e, r.wire)
]

unfoldable pub shearwater_common_wdbi : Session → ℕ → List ℕ → Wire → Status × Wire
unfolding shearwater_common_transfer wdbi_result
shearwater_common_wdbi s id bytes wire =
    if ltb sz_packet (u32 (length bytes + 3))
    then (invalid_args, wire)
    else wdbi_result id
        (shearwater_common_transfer s (wdbi_request ∷ u8 (id >>> 8) ∷ u8 id ∷ bytes) sz_packet wire)

-- A download: status, the buffer, and the stream.
pub record Downloaded : Type 0 where
  pub status : Status
  pub buffer : Option Buffer
  pub wire : Wire

unfoldable pub init_request : Bool → ℕ → ℕ → List ℕ
init_request compression address size =
    0x35
    ∷ (if compression then 0x10 else 0x00)
    ∷ 0x34
    ∷ u8 (address >>> 24)
    ∷ u8 (address >>> 16)
    ∷ u8 (address >>> 8)
    ∷ u8 address
    ∷ u8 (size >>> 16)
    ∷ u8 (size >>> 8)
    ∷ u8 size
    ∷ []

-- One block goes to the buffer: whether that succeeds, the buffer, and whether it was the last one.
unfoldable pub store_block : Heap → Bool → List ℕ → Buffer → Option (Bool × Option Buffer × Bool)
store_block h true bytes b = shearwater_common_decompress_lre h bytes b
store_block h false bytes b =
    checked (dc_buffer_append h (some b) bytes) (λ c. some (true, some c, false))

-- The size is passed on as an `unsigned int`.
unfoldable pub xor_phase : Bool → Buffer → Option Buffer
xor_phase true b = do
  bytes ← load b.offset (u32 b.size) b.block
  block ← store b.block b.offset (shearwater_common_decompress_xor bytes)
  some (record b { block = block })
xor_phase false b = some b

module _ (s : Session) (h : Heap) (compression : Bool) where
  -- What follows the loop over the blocks.
  unfoldable pub quit_response : Transferred → Status
  quit_response r = elim r.status [
    | success ↦
        if not (length r.output == 2)
          || not (get_or r.output 0 0 == 0x77)
          || not (get_or r.output 1 0 == 0x00)
        then protocol
        else success
    | e ↦ e
  ]

  unfoldable pub quit : Buffer → Wire → Option Downloaded
  unfolding xor_phase shearwater_common_transfer quit_response
  quit b wire = do
    c ← xor_phase compression b
    let r = shearwater_common_transfer s (0x37 ∷ []) 2 wire
    some (record { status = quit_response r; buffer = some c; wire = r.wire })

  -- What the result of storing a block leads to.
  abbrev pub stored :
      Option (Bool × Option Buffer × Bool)
      → Wire
      → (Buffer → Bool → Option Downloaded)
      → Option Downloaded
  stored none wire k = none
  stored (some (false, b, last)) wire k =
      some (record { status = protocol; buffer = b; wire = wire })
  stored (some (true, none, last)) wire k = none
  stored (some (true, some b, last)) wire k = k b last

  -- The body of the loop, from the response to the request of a block up to where it is stored.
  unfoldable pub block_response :
      ℕ
      → ℕ
      → ℕ
      → Buffer
      → Transferred
      → (Buffer → Bool → ℕ → Wire → Option Downloaded)
      → Option Downloaded
  unfolding store_block
  block_response size block nbytes b r k =
      let len = length r.output - 2 in
      let wrong : Option Downloaded =
        some (record { status = protocol; buffer = some b; wire = r.wire }) in
      elim r.status [
        | success ↦
            if ltb (length r.output) 2
              || not (get_or r.output 0 0 == 0x76)
              || not (get_or r.output 1 0 == block)
            then wrong
            else if ltb size (u32 (nbytes + len))
            then wrong
            else stored (store_block h compression (drop 2 r.output) b) r.wire
                (λ c last. k c last (u32 (nbytes + len)) r.wire)
        | e ↦ some (record { status = e; buffer = some b; wire = r.wire })
      ]

  -- The loop over the blocks, on fuel, since nothing in the source bounds the number of empty blocks.
  unfoldable pub block_loop : ℕ → ℕ → ℕ → ℕ → Bool → Buffer → Wire → Option Downloaded
  unfolding block_response quit shearwater_common_transfer
  block_loop zero size block nbytes last b wire =
      if ltb nbytes size && not last then none else quit b wire
  block_loop (suc fuel) size block nbytes last b wire =
      if ltb nbytes size && not last
      then block_response size block nbytes b
          (shearwater_common_transfer s (0x36 ∷ block ∷ []) sz_packet wire)
          (λ c last' nbytes' wire'. block_loop fuel size (u8 (block + 1)) nbytes' last' c wire')
      else quit b wire

  unfoldable pub init_response : ℕ → ℕ → Buffer → Transferred → Option Downloaded
  unfolding block_loop
  init_response fuel size b r = elim r.status [
    | success ↦
        if not (length r.output == 3)
          || not (get_or r.output 0 0 == 0x75)
          || not (get_or r.output 1 0 == 0x10)
          || ltb sz_packet (get_or r.output 2 0)
        then some (record { status = protocol; buffer = some b; wire = r.wire })
        else block_loop fuel size 1 0 false b r.wire
    | e ↦ some (record { status = e; buffer = some b; wire = r.wire })
  ]

  unfoldable pub shearwater_common_download : ℕ → ℕ → ℕ → Option Buffer → Wire → Option Downloaded
  unfolding init_response init_request shearwater_common_transfer dc_buffer_clear
  shearwater_common_download fuel address size buffer wire = do
    (cleared, p) ← dc_buffer_clear buffer
    elim p [
      | none ↦ some (record { status = no_memory; buffer = none; wire = wire })
      | some b ↦
          if not cleared
          then some (record { status = no_memory; buffer = some b; wire = wire })
          else init_response fuel size b
              (shearwater_common_transfer s (init_request compression address size) 3 wire)
    ]
