-- ===== src/Shearwater/Transfer/Answers.antt =====
-- `shearwater_common_transfer` of src/shearwater_common.c on a device that answers.
use libdivecomputer.Base.{
  ℕ, ◌+◌, ◌-◌, ◌≤◌, ◌<◌, ◌≡◌, sym, ap, ◌∙◌, false, ◌||◌, not, List, [], ◌∷◌, ◌++◌, Option, none,
  some, ltb, ◌==◌, length, take-of_le, arith,
}
use libdivecomputer.Status.{success, protocol}
use libdivecomputer.Hdlc.{Reply}
use libdivecomputer.Hdlc.Chunks.{replies_of}
use libdivecomputer.Shearwater.Slip.{reads, end_code, Wire, shearwater_common_slip_write}
use libdivecomputer.Shearwater.Slip.Receive.{slip_escape, payloads, HaveHeaders}
use libdivecomputer.Shearwater.Slip.Decode.{shearwater_common_slip_read_lem}
use libdivecomputer.Shearwater.Transfer.{
  sz_packet, Session, Transferred, request_packet, response_of, receive, shearwater_common_transfer,
}

-- The packet of a response.
abbrev pub response_packet : List ℕ → List ℕ
response_packet response = 0x01 ∷ 0xff ∷ (length response + 1) ∷ 0x00 ∷ response

-- A device that takes the packets of a request, and then has those of the response for the reads.
pub record Responds (s : Session) (wire : Wire) (request response : List ℕ) : Type 0 where
  pub goes_on : s.is_cancelled wire.sent ≡ false
  pub takes : (shearwater_common_slip_write s.link (request_packet request) wire).0 ≡ success
  pub packets : List (List ℕ)
  pub headers : HaveHeaders s.link.is_ble packets
  pub frame :
      payloads s.link.is_ble packets ≡ slip_escape (response_packet response) ++ end_code ∷ []
  pub ready :
      (shearwater_common_slip_write s.link (request_packet request) wire).1.pending
      ≡ replies_of packets []

response_of_lem :
    (osize : ℕ) (response : List ℕ)
    → length response ≤ osize
    → response_of osize (response_packet response) ≡ some response
unfolding response_of
response_of_lem osize response fits =
    let n = length response in
    let long : ltb (length (response_packet response)) 4 ≡ false = ground arith in
    let right : (ltb (n + 1) 1
          || not (n + 1 - 1 + 4 == length (response_packet response))
          || ltb osize (n + 1 - 1))
        ≡ false =
      ground arith in
    rw (long, right) (ap some (take-of_le (n + 1 - 1) response (omega arith)))

receive_lem :
    (osize : ℕ) (sent : List (List ℕ)) (response : List ℕ) (pending : List Reply)
    → length response ≤ osize
    → receive osize sent (record {
      status = success;
      bytes = response_packet response;
      actual = length (response_packet response);
      pending = pending;
    })
      ≡ record {
        status = success;
        output = response;
        wire = record { sent = sent; pending = pending };
      }
unfolding receive
receive_lem osize sent response pending fits =
    ap
      (λ (r : Option (List ℕ)). elim r as (λ r. Transferred) [
        | some output ↦ record {
          status = success;
          output = output;
          wire = record { sent = sent; pending = pending };
        }
        | none ↦ record {
          status = protocol;
          output = [];
          wire = record { sent = sent; pending = pending };
        }
      ])
      (response_of_lem osize response fits)

-- A request within the limits, on a device that takes it and responds with at most as many bytes as
-- are asked for, in whatever packets: `shearwater_common_transfer` succeeds and returns exactly these
-- bytes.
pub shearwater_common_transfer_lem :
    (s : Session) (wire : Wire) (request response : List ℕ) (osize : ℕ)
    → Responds s wire request response
    → length request ≤ sz_packet
    → 0 < osize
    → osize ≤ sz_packet
    → length response ≤ osize
    → (unread : List (List ℕ)) × (shearwater_common_transfer s request osize wire ≡ record {
      status = success;
      output = response;
      wire = record {
        sent = (shearwater_common_slip_write s.link (request_packet request) wire).1.sent;
        pending = replies_of unread [];
      };
    })
unfolding shearwater_common_transfer reads
shearwater_common_transfer_lem s wire request response osize responds short some_wanted wanted
      fits =
    let (used, unread, cut, e) =
      shearwater_common_slip_read_lem s.link.is_ble (sz_packet + 4) (response_packet response) []
        responds.packets [] (omega arith) (omega arith) (omega arith) responds.headers
        responds.frame in
    let limits : (ltb sz_packet (length request) || ltb sz_packet osize) ≡ false = ground arith in
    let asked : (osize == 0) ≡ false = ground arith in
    (
      unread,
      rw (limits, responds.goes_on, responds.takes, asked, responds.ready, e)
          (receive_lem osize _ response _ fits),
    )

-- The stream after a transfer.
abbrev pub after : Session → List ℕ → ℕ → Wire → Wire
after s request osize wire = (shearwater_common_transfer s request osize wire).wire

pub answered :
    (s : Session) (wire : Wire) (request response : List ℕ) (osize : ℕ)
    → Responds s wire request response
    → length request ≤ sz_packet
    → 0 < osize
    → osize ≤ sz_packet
    → length response ≤ osize
    → shearwater_common_transfer s request osize wire
      ≡ record { status = success; output = response; wire = after s request osize wire }
answered s wire request response osize responds short some_wanted wanted fits =
    let (unread, e) =
      shearwater_common_transfer_lem s wire request response osize responds short some_wanted wanted
        fits in
    e
    ∙ ap (λ w. record { status = success; output = response; wire = w })
        (sym (ap (λ (r : Transferred). r.wire) e))
