-- ===== src/RingBuffer/Tests.antt =====
-- Runs of src/ringbuffer.c on a ring of 16 bytes at address 32, and instances of its laws.
use libdivecomputer.Base.{ℕ, ◌≡◌, ◌≢◌, ◌≤◌, ◌<◌, ◌%◌, ◌-◌, ◌+◌, refl, some, none, arith}
use libdivecomputer.RingBuffer.{
  ringbuffer_normalize, ringbuffer_distance, ringbuffer_increment, ringbuffer_decrement,
}
use libdivecomputer.RingBuffer.Residues.{IsRing, InRing}
use libdivecomputer.RingBuffer.Laws.{
  ringbuffer_normalize_lem, ringbuffer_decrement-increment, ringbuffer_increment_add,
  ringbuffer_increment-distance,
}

runs :
    (ringbuffer_normalize 15 32 48 ≡ some 47)
    × (ringbuffer_increment 46 5 32 48 ≡ some 35)
    × (ringbuffer_decrement 35 5 32 48 ≡ some 46)
    × (ringbuffer_distance 46 35 0 32 48 ≡ some 5)
    × (ringbuffer_distance 40 40 1 32 48 ≡ some 16)
    × (ringbuffer_distance 40 40 0 48 48 ≡ none)
unfolding ringbuffer_normalize ringbuffer_increment ringbuffer_decrement ringbuffer_distance
runs = (refl, refl, refl, refl, refl, refl)

ring : IsRing 32 48
ring = omega arith

ringbuffer_normalize_lem_example :
    (r : ℕ) × (ringbuffer_normalize 15 32 48 ≡ some r)
    × InRing 32 48 r
    × (r % (48 - 32) ≡ 15 % (48 - 32))
ringbuffer_normalize_lem_example = ringbuffer_normalize_lem 32 48 ring 15

ringbuffer_decrement-increment_example :
    (b : ℕ) × (ringbuffer_increment 46 5 32 48 ≡ some b)
    × InRing 32 48 b
    × (ringbuffer_decrement b 5 32 48 ≡ some 46)
ringbuffer_decrement-increment_example =
    ringbuffer_decrement-increment 32 48 ring 46 5 (omega arith)

ringbuffer_increment_add_example :
    (b : ℕ) × (ringbuffer_increment 46 5 32 48 ≡ some b)
    × (ringbuffer_increment b 30 32 48 ≡ ringbuffer_increment 46 (5 + 30) 32 48)
ringbuffer_increment_add_example = ringbuffer_increment_add 32 48 ring 46 5 30 (omega arith)

ringbuffer_increment-distance_example :
    (k : ℕ) × (ringbuffer_distance 46 35 0 32 48 ≡ some k)
    × (ringbuffer_increment 46 k 32 48 ≡ some 35)
    × (k ≤ 48 - 32)
    × (◌≡◌ {A = ℕ} 0 0 → k < 48 - 32)
    × (◌≢◌ {A = ℕ} 0 0 → 0 < k)
ringbuffer_increment-distance_example =
    ringbuffer_increment-distance 32 48 ring 46 35 0 (omega arith) (omega arith)
