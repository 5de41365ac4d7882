-- ===== src/Rbstream/Tests.antt =====
-- Runs of src/rbstream.c on a ring of 32 bytes at address 16, and instances of its laws.
use libdivecomputer.Base.{ℕ, ◌+◌, ◌≡◌, ◌⊎◌, inl, refl, true, [], ◌∷◌, none, some, arith}
use libdivecomputer.Status.{success, invalid_args}
use libdivecomputer.Rbstream.{
  Device, Rbstream, forward, backward, ifloor, iceil, dc_rbstream_new, refill_forward, load_forward,
  load_backward, refill_backward, round_length, forward_loop, backward_loop, dc_rbstream_read,
}
use libdivecomputer.Rbstream.Ring.{advance, ahead, cells}
use libdivecomputer.Rbstream.Refill.{IsLayout, Holds, Idle}
use libdivecomputer.Rbstream.Forward.{Reads, dc_rbstream_read_lem}
use libdivecomputer.Rbstream.Behind.{retreat, behind}
use libdivecomputer.Rbstream.Unload.{IsSpent}
use libdivecomputer.Rbstream.Backward
use libdivecomputer.Rbstream.Backward.{dc_rbstream_read_before}
use libdivecomputer.Rbstream.New.{IsRequest, Stands, dc_rbstream_new_lem}

-- Every byte is its own address, and the state counts the reads.
abbrev echo : Device ℕ
echo = record { read = λ s a n. (success, cells (λ a. a) 16 48 n a, s + 1) }

abbrev stream : Rbstream
stream = record {
  direction = forward;
  pagesize = 8;
  packetsize = 16;
  begin = 16;
  end = 48;
  address = 40;
  offset = 0;
  available = 0;
  skip = 3;
  cache = [];
}

new_runs :
    (dc_rbstream_new true [] 8 16 16 48 43 forward ≡ (success, some stream))
    × (dc_rbstream_new true [] 8 12 16 48 43 forward ≡ (invalid_args, none))
unfolding dc_rbstream_new ifloor iceil
new_runs = (refl, refl)

read_forward_run :
    (r' : Rbstream) × (dc_rbstream_read echo stream 9 0
      ≡ some (success, 43 ∷ 44 ∷ 45 ∷ 46 ∷ 47 ∷ 16 ∷ 17 ∷ 18 ∷ 19 ∷ [], r', 2))
unfolding dc_rbstream_read forward_loop refill_forward load_forward round_length cells
read_forward_run = (_, refl)

read_backward_run :
    (r' : Rbstream) × (dc_rbstream_read echo
        (record stream { direction = backward; address = 24 })
        9
        0
      ≡ some (success, 44 ∷ 45 ∷ 46 ∷ 47 ∷ 16 ∷ 17 ∷ 18 ∷ 19 ∷ 20 ∷ [], r', 2))
unfolding dc_rbstream_read backward_loop refill_backward load_backward round_length cells
read_backward_run = (_, refl)

layout : IsLayout 16 48 16
layout = record { nonempty = omega arith; packet_fits = omega arith; no_wrap = omega arith }

memory : Holds echo (λ a. a) 16 48
memory = record { holds = λ s a n h h'. (s + 1, refl) }

stream-Idle : Idle (λ a. a) 16 48 16 stream 43
stream-Idle = record {
  begin_is = refl;
  end_is = refl;
  packet_is = refl;
  empty = refl;
  after_begin = omega arith;
  short_skip = omega arith;
  at = inl (refl, omega arith);
}

dc_rbstream_read_lem_example :
    Reads
      (λ a. a)
      16
      48
      16
      echo
      memory
      layout
      (dc_rbstream_read echo stream 9 0)
      (ahead (λ a. a) 16 48 9 43)
      (advance (λ a. a) 16 48 9 43)
      forward
dc_rbstream_read_lem_example =
    dc_rbstream_read_lem (λ a. a) 16 48 16 echo memory layout stream 43 9 0 refl (omega arith)
      (inl stream-Idle)

-- The same ring, read backward from the address 22.
abbrev back_stream : Rbstream
back_stream = record stream { direction = backward; address = 24; skip = 2 }

back_stream-IsSpent : IsSpent (λ a. a) 16 48 16 back_stream 22
back_stream-IsSpent = record {
  begin_is = refl;
  end_is = refl;
  packet_is = refl;
  empty = refl;
  inside = omega arith;
  short_skip = omega arith;
  at = inl (refl, omega arith);
}

dc_rbstream_read_before_example :
    Backward.Reads
      (λ a. a)
      16
      48
      16
      echo
      memory
      layout
      (dc_rbstream_read echo back_stream 9 0)
      (behind (λ a. a) 16 48 9 22)
      (retreat (λ a. a) 16 48 9 22)
dc_rbstream_read_before_example =
    dc_rbstream_read_before (λ a. a) 16 48 16 echo memory layout back_stream 22 9 0 refl
      (omega arith) (inl back_stream-IsSpent)

dc_rbstream_new_lem_example :
    ((dc_rbstream_new true [] 8 16 16 48 43 backward ≡ (invalid_args, none))
      × ¬ IsRequest 8 16 16 48 43)
    ⊎ ((r : Rbstream) × (dc_rbstream_new true [] 8 16 16 48 43 backward ≡ (success, some r))
        × IsRequest 8 16 16 48 43
        × (r.direction ≡ backward)
        × Stands [] 8 16 16 48 43 (omega arith) (λ a. a) r backward)
dc_rbstream_new_lem_example = dc_rbstream_new_lem [] 8 16 16 48 43 (omega arith) (λ a. a) backward
