-- ===== src/Shearwater/Slip/Numbers.antt =====
-- The packets of `shearwater_common_slip_write` of src/shearwater_common.c, with their numbers.
use libdivecomputer.Base.{
  ℕ, ◌+◌, ◌<◌, ◌≡◌, refl, sym, ap, ◌∙◌, Bool, true, false, List, [], ◌∷◌, ◌++◌, append_assoc,
  length, arith,
}
use libdivecomputer.Base.Words.{u8}
use libdivecomputer.Hdlc.Chunks.{joined}
use libdivecomputer.Shearwater.Slip.{slip_renew}

-- The start of a packet: on BLE the number of packets and the number of this one.
unfoldable pub header : Bool → ℕ → ℕ → List ℕ
header true n k = n ∷ k ∷ []
header false n k = []

-- What fits behind it.
unfoldable pub room : Bool → ℕ
room true = 30
room false = 32

-- Packets that are numbered from `k` on, modulo 256.
unfoldable pub numbered : Bool → ℕ → ℕ → List (List ℕ) → List (List ℕ)
unfolding header
numbered ble n k [] = []
numbered ble n k (body ∷ rest) = (header ble n k ++ body) ∷ numbered ble n (u8 (k + 1)) rest

abbrev pub AreFull : Bool → List (List ℕ) → Type 0
AreFull ble [] = Unit
AreFull ble (body ∷ rest) = (length body ≡ room ble) × AreFull ble rest

-- The number after those.
abbrev pub turn : ℕ → List (List ℕ) → ℕ
turn k [] = k
turn k (body ∷ rest) = turn (u8 (k + 1)) rest

pub turn-append : (k : ℕ) (xs ys : List (List ℕ)) → turn k (xs ++ ys) ≡ turn (turn k xs) ys
turn-append k [] ys = refl
turn-append k (x ∷ xs) ys = turn-append (u8 (k + 1)) xs ys

pub numbered-append :
    (ble : Bool) (n k : ℕ) (xs ys : List (List ℕ))
    → numbered ble n k (xs ++ ys) ≡ numbered ble n k xs ++ numbered ble n (turn k xs) ys
unfolding numbered
numbered-append ble n k [] ys = refl
numbered-append ble n k (x ∷ xs) ys =
    ap (λ l. (header ble n k ++ x) ∷ l) (numbered-append ble n (u8 (k + 1)) xs ys)

pub append-AreFull :
    (ble : Bool) (xs ys : List (List ℕ)) → AreFull ble xs → AreFull ble ys → AreFull ble (xs ++ ys)
append-AreFull ble [] ys p q = q
append-AreFull ble (x ∷ xs) ys (h, p) q = (h, append-AreFull ble xs ys p q)

pub joined-append : (xs ys : List (List ℕ)) → joined (xs ++ ys) ≡ joined xs ++ joined ys
unfolding joined
joined-append [] ys = refl
joined-append (x ∷ xs) ys =
    ap (λ l. x ++ l) (joined-append xs ys) ∙ sym (append_assoc x (joined xs) (joined ys))

pub renew_lem :
    (ble : Bool) (n k : ℕ) (body : List ℕ)
    → slip_renew ble (header ble n k ++ body) ≡ header ble n (u8 (k + 1))
unfolding slip_renew header
renew_lem true n k body = refl
renew_lem false n k [] = refl
renew_lem false n k (x ∷ body) = refl

pub header-room : (ble : Bool) (n k : ℕ) → length (header ble n k) + room ble ≡ 32
unfolding header room
header-room true n k = refl
header-room false n k = refl

pub room_pos : (ble : Bool) → 0 < room ble
unfolding room
room_pos true = omega arith
room_pos false = omega arith
