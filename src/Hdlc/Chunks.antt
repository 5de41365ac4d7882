-- ===== src/Hdlc/Chunks.antt =====
-- `dc_hdlc_read` of src/hdlc.c over the chunks that the base stream returns: the read depends on the
-- bytes only, not on how they are cut.
use libdivecomputer.Base.{ℕ, ◌≡◌, refl, ap, ◌∙◌, List, [], ◌∷◌, ◌++◌, Option, none, some}
use libdivecomputer.Status.{Status}
use libdivecomputer.Hdlc.{Reply, chunk, Frame, Scan, more, out, take_byte, scan, finish, read_loop}

-- The bytes of a list of chunks.
unfoldable pub joined : List (List ℕ) → List ℕ
joined [] = []
joined (bytes ∷ rest) = bytes ++ joined rest

-- The replies that hand over some chunks, before others.
unfoldable pub replies_of : List (List ℕ) → List Reply → List Reply
replies_of [] later = later
replies_of (bytes ∷ rest) later = chunk bytes ∷ replies_of rest later

-- A scan goes on with more bytes.
abbrev resume : ℕ → List ℕ → Scan → Scan
resume size bytes (more f) = scan size bytes f
resume size bytes (out status f left) = out status f (left ++ bytes)

pub scan_onwards :
    (size c : ℕ) (rest : List ℕ) (f f' : Frame)
    → take_byte size c f ≡ (none, f')
    → scan size (c ∷ rest) f ≡ scan size rest f'
unfolding scan
scan_onwards size c rest f f' e =
    ap
      (λ (r : Option Status × Frame). elim r.0 [
        | some status ↦ out status r.1 rest
        | none ↦ scan size rest r.1
      ])
      e

pub scan_stops :
    (size c : ℕ) (rest : List ℕ) (status : Status) (f f' : Frame)
    → take_byte size c f ≡ (some status, f')
    → scan size (c ∷ rest) f ≡ out status f' rest
unfolding scan
scan_stops size c rest status f f' e =
    ap
      (λ (r : Option Status × Frame). elim r.0 [
        | some status ↦ out status r.1 rest
        | none ↦ scan size rest r.1
      ])
      e

scan-append :
    (size : ℕ) (xs ys : List ℕ) (f : Frame)
    → scan size (xs ++ ys) f ≡ resume size ys (scan size xs f)
unfolding scan
scan-append size [] ys f = refl
scan-append size (c ∷ xs) ys f =
    split (take_byte size c f).0 (scan-append size xs ys (take_byte size c f).1)
  where
    split :
        (stop : Option Status)
        → scan size (xs ++ ys) (take_byte size c f).1
          ≡ resume size ys (scan size xs (take_byte size c f).1)
        → elim stop [
          | some status ↦ out status (take_byte size c f).1 (xs ++ ys)
          | none ↦ scan size (xs ++ ys) (take_byte size c f).1
        ]
          ≡ resume size ys (elim stop [
            | some status ↦ out status (take_byte size c f).1 xs
            | none ↦ scan size xs (take_byte size c f).1
          ])
    split (some status) e = refl
    split none e = e

-- A read over chunks ends where the scan of all their bytes ends, and what the scan has left over is
-- still to be read.
abbrev pub Ends : ℕ → List (List ℕ) → List Reply → Frame → Scan → Type 0
Ends size chunks later f (more f') = Unit
Ends size chunks later f (out status f' left) =
    (cache : List ℕ) × (unread : List (List ℕ)) × (read_loop size (replies_of chunks later) f
      ≡ finish size status f' cache (replies_of unread later))
    × (cache ++ joined unread ≡ left)

carry :
    (size : ℕ) (bytes : List ℕ) (chunks : List (List ℕ)) (later : List Reply) (f f' : Frame)
    → read_loop size (replies_of (bytes ∷ chunks) later) f
      ≡ read_loop size (replies_of chunks later) f'
    → (r : Scan) → Ends size chunks later f' r
    → Ends size (bytes ∷ chunks) later f r
carry size bytes chunks later f f' e (more f'') ends = tt
carry size bytes chunks later f f' e (out status f'' left) (cache, unread, e', z) =
    (cache, unread, e ∙ e', z)

read_step :
    (size : ℕ) (bytes : List ℕ) (chunks : List (List ℕ)) (later : List Reply) (f : Frame) (r : Scan)
    → scan size bytes f ≡ r
    → ((f : Frame) → Ends size chunks later f (scan size (joined chunks) f))
    → Ends size (bytes ∷ chunks) later f (resume size (joined chunks) r)
unfolding read_loop replies_of
read_step size bytes chunks later f (more f') e ends =
    carry size bytes chunks later f f' (rw (e, read_loop)) (scan size (joined chunks) f') (ends f')
read_step size bytes chunks later f (out status f' left) e ends =
    (left, chunks, rw (e, read_loop), refl)

pub read_loop_lem :
    (size : ℕ) (chunks : List (List ℕ)) (later : List Reply) (f : Frame)
    → Ends size chunks later f (scan size (joined chunks) f)
unfolding joined scan
read_loop_lem size [] later f = tt
read_loop_lem size (bytes ∷ rest) later f =
    rw (scan-append size bytes (joined rest) f)
      (read_step size bytes rest later f _ refl (λ f. read_loop_lem size rest later f))
