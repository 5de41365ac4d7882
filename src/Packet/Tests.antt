-- ===== src/Packet/Tests.antt =====
-- Runs of src/packet.c, and instances of its laws.
use libdivecomputer.Base.{ℕ, ◌≡◌, refl, List, [], ◌∷◌, ◌++◌, some, none, take, drop, arith}
use libdivecomputer.Status.{success, io}
use libdivecomputer.Hdlc.{chunk, fails}
use libdivecomputer.Hdlc.Chunks.{joined, replies_of}
use libdivecomputer.Packet.{
  Got, Port, direct_read, dc_packet_read, dc_packet_get_available, dc_packet_poll, write_loop,
  dc_packet_write,
}
use libdivecomputer.Packet.Read.{Satisfied, dc_packet_read_lem, dc_packet_read_fails}
use libdivecomputer.Packet.Write.{TakesSome, dc_packet_write_lem}

direct_runs :
    (dc_packet_read 0 3 [] (chunk (1 ∷ []) ∷ chunk (2 ∷ 3 ∷ []) ∷ [])
      ≡ some (record { status = success; bytes = 1 ∷ 2 ∷ 3 ∷ []; cache = []; replies = [] }))
    × (dc_packet_read 0 2 [] (chunk (1 ∷ 2 ∷ 3 ∷ []) ∷ []) ≡ none)
    × (dc_packet_get_available 8 (1 ∷ 2 ∷ []) ≡ some 2)
    × (dc_packet_poll 8 [] ≡ none)
unfolding dc_packet_read direct_read dc_packet_get_available dc_packet_poll
direct_runs = (refl, refl, refl, refl)

dc_packet_read_lem_example :
    (got : Got) × (dc_packet_read 8 4
        (1 ∷ [])
        (replies_of ((2 ∷ 3 ∷ []) ∷ [] ∷ (4 ∷ 5 ∷ []) ∷ []) (fails io ∷ []))
      ≡ some got)
    × Satisfied
        (take 4 ((1 ∷ []) ++ joined ((2 ∷ 3 ∷ []) ∷ [] ∷ (4 ∷ 5 ∷ []) ∷ [])))
        (drop 4 ((1 ∷ []) ++ joined ((2 ∷ 3 ∷ []) ∷ [] ∷ (4 ∷ 5 ∷ []) ∷ [])))
        (fails io ∷ [])
        got
unfolding joined
dc_packet_read_lem_example =
    dc_packet_read_lem 8 4 (1 ∷ []) ((2 ∷ 3 ∷ []) ∷ [] ∷ (4 ∷ 5 ∷ []) ∷ []) (fails io ∷ [])
      (omega arith) (omega arith)

dc_packet_read_fails_example :
    dc_packet_read 8 4 (1 ∷ []) (replies_of ((2 ∷ []) ∷ []) (fails io ∷ []))
    ≡ some (record {
      status = io;
      bytes = (1 ∷ []) ++ joined ((2 ∷ []) ∷ []);
      cache = [];
      replies = [];
    })
unfolding joined
dc_packet_read_fails_example =
    dc_packet_read_fails 8 4 (1 ∷ []) ((2 ∷ []) ∷ []) io [] (omega arith) (omega arith)

-- A port that takes one byte of each write.
abbrev slow : Port (List ℕ)
slow = record { write = λ s bytes. (success, 1, s ++ take 1 bytes) }

write_run : dc_packet_write slow 2 (1 ∷ 2 ∷ 3 ∷ []) [] ≡ some (success, 3, 1 ∷ 2 ∷ 3 ∷ [])
unfolding dc_packet_write write_loop
write_run = refl

slow-TakesSome : TakesSome slow 2 (λ s. s)
slow-TakesSome = record {
  succeeds = λ s bytes h fits. (s ++ take 1 bytes, 1, refl, omega arith, omega arith, refl);
}

dc_packet_write_lem_example :
    (s' : List ℕ) × (dc_packet_write slow 2 (1 ∷ 2 ∷ 3 ∷ []) [] ≡ some (success, 3, s'))
    × (s' ≡ [] ++ (1 ∷ 2 ∷ 3 ∷ []))
dc_packet_write_lem_example = dc_packet_write_lem slow 2 (λ s. s) slow-TakesSome (1 ∷ 2 ∷ 3 ∷ []) []
