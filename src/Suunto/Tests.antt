-- ===== src/Suunto/Tests.antt =====
-- Runs of src/suunto_common.c on a ring of twelve bytes at address 4, and an instance of its law.
use libdivecomputer.Base.{ℕ, ◌≡◌, refl, true, List, [], ◌∷◌, ◌++◌, Option, none, some, replicate}
use libdivecomputer.Base.Blocks.{view, load, store, patch}
use libdivecomputer.Status.{Status, success, invalid_args, data_format}
use libdivecomputer.Array.{same_bytes}
use libdivecomputer.RingBuffer.{modulo, distance, ringbuffer_distance, ringbuffer_decrement}
use libdivecomputer.Suunto.{
  Layout, suunto_common_device_init, suunto_common_device_set_fingerprint, find_eop, gather,
  is_known, deliver, round, end_test, walk_loop, suunto_common_extract_dives,
}
use libdivecomputer.Suunto.Rounds.{Callback}

abbrev layout : Layout
layout = record { eop = 0; rb_profile_begin = 4; rb_profile_end = 16; fp_offset = 1; peek = 1 }

-- The marker, the end of an older dive, and a dive of six bytes.
abbrev memory : List ℕ
memory = 0 ∷ 0 ∷ 0 ∷ 0 ∷ 0x82 ∷ 9 ∷ 9 ∷ 9 ∷ 9 ∷ 0x80 ∷ 1 ∷ 2 ∷ 3 ∷ 4 ∷ 5 ∷ 6 ∷ []

abbrev collect : Callback (List (List ℕ))
collect = some (λ s dive fingerprint. (true, s ++ dive ∷ []))

abbrev fresh : ℕ → Option (List ℕ)
fresh n = some (replicate n 0xaa)

extract_runs :
    (suunto_common_extract_dives none collect layout memory fresh []
      ≡ some (success, (1 ∷ 2 ∷ 3 ∷ 4 ∷ 5 ∷ 6 ∷ []) ∷ []))
    × (suunto_common_extract_dives (some (2 ∷ 3 ∷ 4 ∷ 5 ∷ 6 ∷ [])) collect layout memory fresh []
        ≡ some (success, []))
    × (suunto_common_extract_dives none collect layout (replicate 16 7) fresh []
        ≡ some (data_format, []))
unfolding suunto_common_extract_dives find_eop walk_loop round end_test deliver is_known gather load
    store view patch same_bytes ringbuffer_decrement ringbuffer_distance modulo distance
extract_runs = (refl, refl, refl)

fingerprint_runs :
    (suunto_common_device_set_fingerprint suunto_common_device_init (1 ∷ 2 ∷ [])
      ≡ (invalid_args, 0 ∷ 0 ∷ 0 ∷ 0 ∷ 0 ∷ []))
    × (suunto_common_device_set_fingerprint (1 ∷ 2 ∷ 3 ∷ 4 ∷ 5 ∷ []) []
        ≡ (success, suunto_common_device_init))
unfolding suunto_common_device_set_fingerprint suunto_common_device_init
fingerprint_runs = (refl, refl)
