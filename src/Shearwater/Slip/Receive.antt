-- ===== src/Shearwater/Slip/Receive.antt =====
-- `shearwater_common_slip_read` of src/shearwater_common.c takes a frame apart, however it is cut.
use libdivecomputer.Base.{
  ℕ, ◌≤◌, ◌≡◌, ◌⊎◌, inl, inr, refl, ap, ◌∙◌, Bool, false, ◌||◌, ◌&&◌, List, [], ◌∷◌, ◌++◌, ltb,
  ◌==◌, if◌then◌else◌, length, drop, arith,
}
use libdivecomputer.Status.{success, protocol}
use libdivecomputer.Hdlc.{Reply, chunk}
use libdivecomputer.Hdlc.Chunks.{replies_of}
use libdivecomputer.Shearwater.Slip.{
  end_code, esc_code, esc_end, esc_esc, Slip, SlipScan, more, complete, broken, slip_take,
  slip_scan, Received, slip_loop,
}

abbrev pub is_special : ℕ → Bool
is_special c = c == end_code || c == esc_code

-- What stands for a byte inside of a frame.
unfoldable pub slip_stuff : ℕ → List ℕ
slip_stuff c =
    if is_special c then esc_code ∷ (if c == end_code then esc_end else esc_esc) ∷ [] else c ∷ []

unfoldable pub slip_escape : List ℕ → List ℕ
unfolding slip_stuff
slip_escape [] = []
slip_escape (c ∷ rest) = slip_stuff c ++ slip_escape rest

-- The bytes of a packet behind its header, and those of several.
unfoldable pub payload : Bool → List ℕ → List ℕ
payload ble packet = if ble then drop 2 packet else packet

unfoldable pub payloads : Bool → List (List ℕ) → List ℕ
unfolding payload
payloads ble [] = []
payloads ble (packet ∷ rest) = payload ble packet ++ payloads ble rest

-- BLE packets have a header, and fit one read.
abbrev pub HaveHeaders : Bool → List (List ℕ) → Type 0
HaveHeaders ble [] = Unit {0}
HaveHeaders ble (packet ∷ rest) =
    ((ble ≡ false) ⊎ ((2 ≤ length packet) × (length packet ≤ 256))) × HaveHeaders ble rest

abbrev pub resume : ℕ → List ℕ → SlipScan → SlipScan
resume size bytes (more f) = slip_scan size bytes f
resume size bytes (complete f) = complete f
resume size bytes (broken f) = broken f

pub slip_scan-append :
    (size : ℕ) (xs ys : List ℕ) (f : Slip)
    → slip_scan size (xs ++ ys) f ≡ resume size ys (slip_scan size xs f)
unfolding slip_scan
slip_scan-append size [] ys f = refl
slip_scan-append size (c ∷ xs) ys f =
    split (slip_take size c f) (λ f'. slip_scan-append size xs ys f')
  where
    split :
        (r : SlipScan)
        → ((f' : Slip) → slip_scan size (xs ++ ys) f' ≡ resume size ys (slip_scan size xs f'))
        → elim r [
          | more f' ↦ slip_scan size (xs ++ ys) f'
          | complete f' ↦ complete f'
          | broken f' ↦ broken f'
        ]
          ≡ resume size ys (elim r [
            | more f' ↦ slip_scan size xs f'
            | complete f' ↦ complete f'
            | broken f' ↦ broken f'
          ])
    split (more f') same = same f'
    split (complete f') same = refl
    split (broken f') same = refl

abbrev pub finished : ℕ → Slip → List Reply → Received
finished size f pending =
    if ltb size f.nbytes
    then record { status = protocol; bytes = f.output; actual = 0; pending = pending }
    else record { status = success; bytes = f.output; actual = f.nbytes; pending = pending }

-- A read over packets ends where the scan of their bytes is complete.
abbrev pub Ends : Bool → ℕ → List (List ℕ) → List Reply → Slip → SlipScan → Type 0
Ends ble size packets later f (more f') = Unit {0}
Ends ble size packets later f (broken f') = Unit {0}
Ends ble size packets later f (complete f') =
    (used : List (List ℕ)) × (unread : List (List ℕ)) × (packets ≡ used ++ unread)
    × (slip_loop ble size (replies_of packets later) f ≡ finished size f' (replies_of unread later))

after_scan : Bool → ℕ → List Reply → SlipScan → Received
after_scan ble size rest (more f) = slip_loop ble size rest f
after_scan ble size rest (complete f) = finished size f rest
after_scan ble size rest (broken f) = record {
  status = protocol;
  bytes = f.output;
  actual = 0;
  pending = rest;
}

loop_step :
    (ble : Bool) (size : ℕ) (packet : List ℕ) (rest : List Reply) (f : Slip)
    → (ble ≡ false) ⊎ ((2 ≤ length packet) × (length packet ≤ 256))
    → slip_loop ble size (chunk packet ∷ rest) f
      ≡ after_scan ble size rest (slip_scan size (payload ble packet) f)
unfolding slip_loop payload after_scan
loop_step ble size packet rest f header =
    let z : (ble && ltb (length packet) 2) ≡ false = elim header [
      | inl plain ↦ rw plain
      | inr (long, fits) ↦ ground arith
    ] in
    rw z (by_scan (slip_scan size (if ble then drop 2 packet else packet) f))
  where
    by_scan :
        (r : SlipScan)
        → (let scanned : Received = elim r [
          | more f' ↦ slip_loop ble size rest f'
          | complete f' ↦ finished size f' rest
          | broken f' ↦ record { status = protocol; bytes = f'.output; actual = 0; pending = rest }
        ] in
            scanned)
          ≡ after_scan ble size rest r
    by_scan (more f') = refl
    by_scan (complete f') = refl
    by_scan (broken f') = refl

carry :
    (ble : Bool) (size : ℕ) (packet : List ℕ) (packets : List (List ℕ)) (later : List Reply)
    (f f' : Slip)
    → slip_loop ble size (replies_of (packet ∷ packets) later) f
      ≡ slip_loop ble size (replies_of packets later) f'
    → (r : SlipScan) → Ends ble size packets later f' r
    → Ends ble size (packet ∷ packets) later f r
carry ble size packet packets later f f' e (more f'') ends = tt
carry ble size packet packets later f f' e (broken f'') ends = tt
carry ble size packet packets later f f' e (complete f'') (used, unread, z, e') =
    (packet ∷ used, unread, ap (λ l. packet ∷ l) z, e ∙ e')

read_step :
    (ble : Bool) (size : ℕ) (packet : List ℕ) (packets : List (List ℕ)) (later : List Reply)
    (f : Slip) (r : SlipScan)
    → (ble ≡ false) ⊎ ((2 ≤ length packet) × (length packet ≤ 256))
    → slip_scan size (payload ble packet) f ≡ r
    → ((f : Slip) → Ends ble size packets later f (slip_scan size (payloads ble packets) f))
    → Ends ble size (packet ∷ packets) later f (resume size (payloads ble packets) r)
unfolding replies_of after_scan
read_step ble size packet packets later f (more f') header e ends =
    carry ble size packet packets later f f'
      (loop_step ble size packet (replies_of packets later) f header
        ∙ ap (after_scan ble size (replies_of packets later)) e)
      (slip_scan size (payloads ble packets) f') (ends f')
read_step ble size packet packets later f (broken f') header e ends = tt
read_step ble size packet packets later f (complete f') header e ends = (
  packet ∷ [],
  packets,
  refl,
  loop_step ble size packet (replies_of packets later) f header
      ∙ ap (after_scan ble size (replies_of packets later)) e,
)

pub slip_loop_lem :
    (ble : Bool) (size : ℕ) (packets : List (List ℕ)) (later : List Reply) (f : Slip)
    → HaveHeaders ble packets
    → Ends ble size packets later f (slip_scan size (payloads ble packets) f)
unfolding payloads slip_scan
slip_loop_lem ble size [] later f headers = tt
slip_loop_lem ble size (packet ∷ rest) later f headers =
    rw (slip_scan-append size (payload ble packet) (payloads ble rest) f) (
      read_step ble size packet rest later f _ headers.0 refl
        (λ f. slip_loop_lem ble size rest later f headers.1))
