-- ===== src/Shearwater/Transfer/Tests.antt =====
-- Runs of the requests of src/shearwater_common.c on a small device, and instances of their laws.
use libdivecomputer.Base.{
  ℕ, ◌≡◌, inl, inr, refl, true, false, List, [], ◌∷◌, none, some, ◌==◌, if◌then◌else◌, get_or,
  arith,
}
use libdivecomputer.Status.{success, unsupported, protocol}
use libdivecomputer.Hdlc.{chunk}
use libdivecomputer.Hdlc.Chunks.{replies_of}
use libdivecomputer.Buffer.{Buffer, Heap, IsHeap}
use libdivecomputer.Shearwater.Slip.{
  pieces, reads, read_size, Wire, send, slip_count, slip_header, slip_renew, slip_flush, slip_put,
  slip_put_stuffed, slip_put_all, shearwater_common_slip_write, slip_take, slip_scan, slip_loop,
  shearwater_common_slip_read,
}
use libdivecomputer.Shearwater.Slip.Receive.{slip_stuff, slip_escape, payload, payloads}
use libdivecomputer.Shearwater.Transfer.{
  sz_packet, Session, request_packet, response_of, receive, shearwater_common_transfer, check_id,
  rdbi_result, wdbi_result, shearwater_common_rdbi, shearwater_common_wdbi, init_request,
  shearwater_common_download,
}
use libdivecomputer.Shearwater.Transfer.Answers.{Responds, after}
use libdivecomputer.Shearwater.Transfer.Identifiers.{Found, shearwater_common_rdbi_lem}
use libdivecomputer.Shearwater.Transfer.Storing.{decode, finish}
use libdivecomputer.Shearwater.Transfer.Download.{
  Serves, decoded, Delivers, shearwater_common_download_lem,
}

-- The packet that answers a request, by the first byte and the second one.
abbrev answer_to : ℕ → ℕ → List ℕ
answer_to code block =
    if code == 0x35
    then 0x01 ∷ 0xff ∷ 0x04 ∷ 0x00 ∷ 0x75 ∷ 0x10 ∷ 0x04 ∷ 0xc0 ∷ []
    else if code == 0x36
    then if block == 1
      then 0x01 ∷ 0xff ∷ 0x05 ∷ 0x00 ∷ 0x76 ∷ 0x01 ∷ 0xdb ∷ 0xdc ∷ 7 ∷ 0xc0 ∷ []
      else 0x01 ∷ 0xff ∷ 0x04 ∷ 0x00 ∷ 0x76 ∷ 0x02 ∷ 9 ∷ 0xc0 ∷ []
    else if code == 0x22
    then 0x01 ∷ 0xff ∷ 0x05 ∷ 0x00 ∷ 0x62 ∷ 0x80 ∷ 0x10 ∷ 5 ∷ 0xc0 ∷ []
    else if code == 0x2e
    then 0x01 ∷ 0xff ∷ 0x04 ∷ 0x00 ∷ 0x7f ∷ 0x2e ∷ 0x22 ∷ 0xc0 ∷ []
    else 0x01 ∷ 0xff ∷ 0x03 ∷ 0x00 ∷ 0x77 ∷ 0x00 ∷ 0xc0 ∷ []

abbrev session : Session
session = record {
  link = record {
    is_ble = false;
    answer =
        λ sent packet. (success, chunk (answer_to (get_or packet 4 0) (get_or packet 5 0)) ∷ []);
  };
  is_cancelled = λ sent. false;
}

abbrev fresh : Wire
fresh = record { sent = []; pending = [] }

abbrev full_heap : Heap
full_heap = record { malloc = λ n. none; realloc = λ xs n. none }

full_heap-IsHeap : IsHeap full_heap
full_heap-IsHeap = record {
  length-malloc = λ n b e. cc e;
  length-realloc = λ xs n b e. cc e;
  realloc_keeps = λ xs n k m b e p q. cc e;
}

abbrev buffer : Buffer
buffer = record { block = 1 ∷ 2 ∷ 3 ∷ 4 ∷ []; capacity = 4; offset = 1; size = 2 }

-- An identifier that the device has, and one that it does not let itself be written.
identifiers :
    ((shearwater_common_rdbi session 0x8010 8 false fresh).output ≡ 5 ∷ [])
    × ((shearwater_common_rdbi session 0x8010 8 true fresh).status ≡ protocol)
    × ((shearwater_common_wdbi session 0x8010 (1 ∷ []) fresh).0 ≡ unsupported)
unfolding shearwater_common_rdbi shearwater_common_wdbi rdbi_result wdbi_result
    shearwater_common_transfer request_packet receive response_of check_id
    shearwater_common_slip_write slip_put_all slip_put_stuffed slip_put slip_flush slip_header
    slip_count slip_renew send slip_take slip_scan slip_loop pieces reads read_size
    shearwater_common_slip_read replies_of
identifiers = (refl, refl, refl)

rdbi_Responds : Responds session fresh (0x22 ∷ 0x80 ∷ 0x10 ∷ []) (0x62 ∷ 0x80 ∷ 0x10 ∷ 5 ∷ [])
unfolding request_packet shearwater_common_slip_write slip_put_all slip_put_stuffed slip_put
    slip_flush slip_header slip_count slip_renew send payloads payload slip_escape slip_stuff
    replies_of
rdbi_Responds = record {
  goes_on = refl;
  takes = refl;
  packets = answer_to 0x22 0 ∷ [];
  headers = (inl refl, tt);
  frame = refl;
  ready = refl;
}

shearwater_common_rdbi_lem_example :
    Found 0x8010 8 false
      (0x62 ∷ 0x80 ∷ 0x10 ∷ 5 ∷ [])
      (shearwater_common_rdbi session 0x8010 8 false fresh)
shearwater_common_rdbi_lem_example =
    shearwater_common_rdbi_lem session 0x8010 8 false fresh (0x62 ∷ 0x80 ∷ 0x10 ∷ 5 ∷ [])
      rdbi_Responds (omega arith)

init_Responds : Responds session fresh (init_request false 0 3) (0x75 ∷ 0x10 ∷ 4 ∷ [])
unfolding init_request request_packet shearwater_common_slip_write slip_put_all slip_put_stuffed
    slip_put slip_flush slip_header slip_count slip_renew send payloads payload slip_escape
    slip_stuff replies_of
init_Responds = record {
  goes_on = refl;
  takes = refl;
  packets = answer_to 0x35 0 ∷ [];
  headers = (inl refl, tt);
  frame = refl;
  ready = refl;
}

Block : Wire → ℕ → List ℕ → Type 0
Block wire k bytes = Responds session wire (0x36 ∷ k ∷ []) (0x76 ∷ k ∷ bytes)

blocks_Respond :
    (wire : Wire) → wire.pending ≡ [] → Block wire 1 (0xc0 ∷ 7 ∷ []) × Block wire 2 (9 ∷ [])
unfolding Block request_packet shearwater_common_slip_write slip_put_all slip_put_stuffed slip_put
    slip_flush slip_header slip_count slip_renew send payloads payload slip_escape slip_stuff
    replies_of
blocks_Respond wire e = (
  record {
    goes_on = refl;
    takes = refl;
    packets = answer_to 0x36 1 ∷ [];
    headers = (inl refl, tt);
    frame = refl;
    ready = rw e refl;
  },
  record {
    goes_on = refl;
    takes = refl;
    packets = answer_to 0x36 2 ∷ [];
    headers = (inl refl, tt);
    frame = refl;
    ready = rw e refl;
  },
)

quit_Responds :
    (wire : Wire) → wire.pending ≡ [] → Responds session wire (0x37 ∷ []) (0x77 ∷ 0x00 ∷ [])
unfolding request_packet shearwater_common_slip_write slip_put_all slip_put_stuffed slip_put
    slip_flush slip_header slip_count slip_renew send payloads payload slip_escape slip_stuff
    replies_of
quit_Responds wire e = record {
  goes_on = refl;
  takes = refl;
  packets = answer_to 0x37 0 ∷ [];
  headers = (inl refl, tt);
  frame = refl;
  ready = rw e refl;
}

abbrev wire_1 : Wire
wire_1 = after session (init_request false 0 3) 3 fresh

abbrev wire_2 : Wire
wire_2 = after session (0x36 ∷ 1 ∷ []) sz_packet wire_1

abbrev wire_3 : Wire
wire_3 = after session (0x36 ∷ 2 ∷ []) sz_packet wire_2

nothing_pending : (wire_1.pending ≡ []) × (wire_2.pending ≡ []) × (wire_3.pending ≡ [])
unfolding init_request shearwater_common_transfer request_packet receive response_of
    shearwater_common_slip_write slip_put_all slip_put_stuffed slip_put slip_flush slip_header
    slip_count slip_renew send slip_take slip_scan slip_loop pieces reads read_size
    shearwater_common_slip_read replies_of
nothing_pending = (refl, refl, refl)

session-Serves :
    Serves session full_heap full_heap-IsHeap false 3 1 0 false wire_1
      ((0xc0 ∷ 7 ∷ []) ∷ (9 ∷ []) ∷ [])
unfolding decode Block
session-Serves = (
  refl,
  omega arith,
  omega arith,
  omega arith,
  (blocks_Respond wire_1 nothing_pending.0).0,
  (
    refl,
    omega arith,
    omega arith,
    omega arith,
    (blocks_Respond wire_2 nothing_pending.1).1,
    (inr refl, quit_Responds wire_3 nothing_pending.2),
  ),
)

shearwater_common_download_lem_example :
    Delivers session full_heap full_heap-IsHeap false 3
      (finish false
        (decoded session full_heap full_heap-IsHeap false 3 ((0xc0 ∷ 7 ∷ []) ∷ (9 ∷ []) ∷ [])))
      (shearwater_common_download session full_heap false 2 0 3 (some buffer) fresh)
shearwater_common_download_lem_example =
    shearwater_common_download_lem session full_heap full_heap-IsHeap false 3
      ((0xc0 ∷ 7 ∷ []) ∷ (9 ∷ []) ∷ []) 2 0 4 buffer fresh (omega arith) (omega arith)
      (unfold decode in omega arith) (omega arith) (omega arith) (omega arith) init_Responds
      session-Serves
