-- ===== src/Shearwater/Transfer/Identifiers.antt =====
-- `shearwater_common_rdbi` of src/shearwater_common.c: the three kinds of responses.
use libdivecomputer.Base.{
  ℕ, ◌-◌, ◌≤◌, ◌≡◌, ◌⊎◌, inl, inr, refl, sym, ap, ◌∙◌, Bool, true, false, ◌||◌, ◌&&◌, not, List, [],
  ◌∷◌, ltb, ◌==◌, ==_iff, if◌then◌else◌, Bool-cases, length, drop, get_or, arith,
}
use mathlib.Core.Path.{subst}
use libdivecomputer.Base.Words.{u8, ◌>>>◌}
use libdivecomputer.Status.{Status, success, unsupported, protocol}
use libdivecomputer.Shearwater.Slip.{Wire}
use libdivecomputer.Shearwater.Transfer.{
  sz_packet, rdbi_request, rdbi_response, nak, Session, Transferred, check_id, rdbi_result,
  shearwater_common_rdbi,
}
use libdivecomputer.Shearwater.Transfer.Answers.{Responds, after, answered}

module _ (request response id : ℕ) where
  -- A response with bytes for the identifier, and one that refuses the request.
  abbrev pub IsAnswer : List ℕ → List ℕ → Type 0
  IsAnswer output bytes = output ≡ response ∷ u8 (id >>> 8) ∷ u8 id ∷ bytes

  abbrev pub IsRefusal : List ℕ → Type 0
  IsRefusal output = (code : ℕ) × (output ≡ nak ∷ request ∷ code ∷ [])

  abbrev differs : List ℕ → Bool
  differs output =
      ltb (length output) 3
      || not (get_or output 0 0 == response)
      || not (get_or output 1 0 == u8 (id >>> 8))
      || not (get_or output 2 0 == u8 id)

  abbrev refuses : List ℕ → Bool
  refuses output = length output == 3 && get_or output 0 0 == nak && get_or output 1 0 == request

  answer_agrees : (output bytes : List ℕ) → IsAnswer output bytes → differs output ≡ false
  answer_agrees output bytes e =
      let hi : (u8 (id >>> 8) == u8 (id >>> 8)) ≡ true = (==_iff _ _).1 refl in
      let lo : (u8 id == u8 id) ≡ true = (==_iff _ _).1 refl in
      let code : (response == response) ≡ true = (==_iff _ _).1 refl in
      let long : ltb (length (response ∷ u8 (id >>> 8) ∷ u8 id ∷ bytes)) 3 ≡ false = ground arith in
      rw e (rw (long, code, hi, lo) refl)

  refusal_refuses : (output : List ℕ) → IsRefusal output → refuses output ≡ true
  refusal_refuses output (code, e) =
      let same : (request == request) ≡ true = (==_iff _ _).1 refl in rw e (rw same refl)

  agrees : (output : List ℕ) → differs output ≡ false → (bytes : List ℕ) × IsAnswer output bytes
  agrees [] e = cc e
  agrees (a ∷ []) e = cc e
  agrees (a ∷ b ∷ []) e = cc e
  agrees (a ∷ b ∷ c ∷ bytes) e =
      let x : a ≡ response = ground arith in
      let y : b ≡ u8 (id >>> 8) = ground arith in
      let z : c ≡ u8 id = ground arith in (bytes, rw (x, y, z) refl)

  refused : (output : List ℕ) → refuses output ≡ true → IsRefusal output
  refused [] e = ground arith
  refused (a ∷ []) e = cc e
  refused (a ∷ b ∷ []) e = cc e
  refused (a ∷ b ∷ c ∷ []) e =
      let x : a ≡ nak = ground arith in let y : b ≡ request = ground arith in (c, rw (x, y) refl)
  refused (a ∷ b ∷ c ∷ d ∷ rest) e = ground arith

-- The bytes fit the buffer; without `actual` they have to fill it.
abbrev pub Fits : Bool → ℕ → List ℕ → Type 0
Fits true size bytes = length bytes ≡ size
Fits false size bytes = length bytes ≤ size

either-Fits :
    (exact : Bool) (size : ℕ) (bytes : List ℕ)
    → (Fits exact size bytes
        × ((ltb size (length bytes) || (exact && not (length bytes == size))) ≡ false))
      ⊎ ((¬ Fits exact size bytes)
          × ((ltb size (length bytes) || (exact && not (length bytes == size))) ≡ true))
either-Fits true size bytes = ground arith
either-Fits false size bytes = ground arith

-- The three kinds of results.
abbrev pub Found : ℕ → ℕ → Bool → List ℕ → Transferred → Type 0
Found id size exact response r =
    ((bytes : List ℕ) × IsAnswer rdbi_request rdbi_response id response bytes
      × Fits exact size bytes
      × (r.status ≡ success)
      × (r.output ≡ bytes))
    ⊎ (IsRefusal rdbi_request rdbi_response id response
        × (r.status ≡ unsupported)
        × (r.output ≡ []))
    ⊎ ((¬ (
          (bytes : List ℕ) × IsAnswer rdbi_request rdbi_response id response bytes
          × Fits exact size bytes))
        × (¬ IsRefusal rdbi_request rdbi_response id response)
        × (r.status ≡ protocol)
        × (r.output ≡ []))

module _ (id size : ℕ) (exact : Bool) (wire : Wire) where
  abbrev outcome : List ℕ → Transferred
  outcome response =
      rdbi_result id size exact (record { status = success; output = response; wire = wire })

  abbrev judged : List ℕ → Status → Transferred
  judged response status =
      let len = length response - 3 in
      elim status as (λ x. Transferred) [
        | success ↦
            if ltb size len || (exact && not (len == size))
            then record { status = protocol; output = []; wire = wire }
            else record { status = success; output = drop 3 response; wire = wire }
        | e ↦ record { status = e; output = []; wire = wire }
      ]

  outcome-judged :
      (response : List ℕ) (status : Status)
      → check_id rdbi_request rdbi_response id response ≡ status
      → outcome response ≡ judged response status
  unfolding rdbi_result
  outcome-judged response status e = ap (judged response) e

  agreed :
      (response : List ℕ)
      → differs rdbi_request rdbi_response id response ≡ false
      → check_id rdbi_request rdbi_response id response ≡ success
  unfolding check_id
  agreed response same = rw same refl

  refused_or_wrong :
      (response : List ℕ)
      → differs rdbi_request rdbi_response id response ≡ true
      → check_id rdbi_request rdbi_response id response
        ≡ (if refuses rdbi_request rdbi_response id response then unsupported else protocol)
  unfolding check_id
  refused_or_wrong response other = rw other refl

  answered_lem :
      (bytes response : List ℕ)
      → IsAnswer rdbi_request rdbi_response id response bytes
      → Found id size exact response (outcome response)
  answered_lem bytes response e =
      let len : length response - 3 ≡ length bytes = (let z = ap length e in omega arith) in
      let rest : drop 3 response ≡ bytes = ap (drop 3) e in
      let z =
        outcome-judged response success
          (agreed response (answer_agrees rdbi_request rdbi_response id response bytes e)) in
      elim (either-Fits exact size bytes) [
        | inl (fits, test) ↦ inl (
          bytes,
          e,
          fits,
          ap (λ (r : Transferred). r.status) z ∙ rw (len, test) refl,
          ap (λ (r : Transferred). r.output) z ∙ rw (len, test) rest,
        )
        | inr (unfit, test) ↦ inr (
            inr (
              (λ (other, e', fits).
                  unfit (subst (Fits exact size) (ap (drop 3) (sym e' ∙ e)) fits)),
              (λ (code, e').
                  let z : rdbi_response ≡ nak = ap (λ l. get_or l 0 0) (sym e ∙ e') in omega arith),
              ap (λ (r : Transferred). r.status) z ∙ rw (len, test) refl,
              ap (λ (r : Transferred). r.output) z ∙ rw (len, test) refl,
            ))
      ]

  rdbi_result_lem : (response : List ℕ) → Found id size exact response (outcome response)
  rdbi_result_lem response = elim (Bool-cases (differs rdbi_request rdbi_response id response)) [
    | inr same ↦
        (let (bytes, e) = agrees rdbi_request rdbi_response id response same in
          answered_lem bytes response e)
    | inl other ↦ elim (Bool-cases (refuses rdbi_request rdbi_response id response)) [
      | inl refusal ↦
          (let z =
              outcome-judged response unsupported
                (refused_or_wrong response other ∙ rw refusal refl) in
            inr (
              inl (
                refused rdbi_request rdbi_response id response refusal,
                ap (λ (r : Transferred). r.status) z,
                ap (λ (r : Transferred). r.output) z,
              )))
      | inr wrong ↦
          (let z =
              outcome-judged response protocol (refused_or_wrong response other ∙ rw wrong refl) in
            inr (
              inr (
                (λ (bytes, e, fits).
                    cc (answer_agrees rdbi_request rdbi_response id response bytes e)),
                (λ e. cc (refusal_refuses rdbi_request rdbi_response id response e)),
                ap (λ (r : Transferred). r.status) z,
                ap (λ (r : Transferred). r.output) z,
              )))
    ]
  ]

-- On a device that takes the request and gives any response that fits a packet,
-- `shearwater_common_rdbi` returns the bytes of a response for the identifier that fit the buffer of the
-- caller (without `actual`, that fill it), answers a refusal of the request with "unsupported", and
-- anything else with a protocol error and no bytes.
pub shearwater_common_rdbi_lem :
    (s : Session) (id size : ℕ) (exact : Bool) (wire : Wire) (response : List ℕ)
    → Responds s wire (rdbi_request ∷ u8 (id >>> 8) ∷ u8 id ∷ []) response
    → length response ≤ sz_packet
    → Found id size exact response (shearwater_common_rdbi s id size exact wire)
unfolding shearwater_common_rdbi
shearwater_common_rdbi_lem s id size exact wire response responds fits =
    let request = rdbi_request ∷ u8 (id >>> 8) ∷ u8 id ∷ [] in
    let e =
      answered s wire request response sz_packet responds (omega arith) (omega arith) (omega arith)
        fits in
    subst (Found id size exact response) (sym (ap (rdbi_result id size exact) e))
      (rdbi_result_lem id size exact (after s request sz_packet wire) response)
