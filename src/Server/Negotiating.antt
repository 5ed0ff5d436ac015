-- ===== src/Server/Negotiating.antt =====
-- What the negotiation endpoint answers.
use headnet.Base.{
  ℕ, ◌≡◌, refl, ap, ◌∙◌, inl, inr, true, false, not, ◌&&◌, arith, leb, if◌then◌else◌, Bool-cases,
}
use headnet.Base.Int.{ℤ, pos, negsuc, int_leb}
use headnet.Api.{http_status}
use headnet.Api.Health.{NegotiateRequest}
use headnet.Protocol.{
  parse_capabilities, supported, new_set, Range, Set, valid, negotiate, local_range, oldest_version,
  newest_version,
}
use headnet.Server.{Response, decoded}
use headnet.Server.Probes.{
  Process, client_range, not_positive, negotiate_for, negotiated, handle_negotiate,
}

-- The status that a client range deserves: 400 if it is no range, 200 if this build speaks one of
-- its versions, and 426 otherwise.
abbrev pub expected_status : Range → ℕ
expected_status r =
    if not (int_leb (pos 1) r.min_version && int_leb r.min_version r.version)
    then 400
    else if int_leb r.min_version newest_version && int_leb oldest_version r.version
    then 200
    else 426

negotiated-status :
    (p : Process) (version min_version : ℤ) (ours theirs : Set)
    → int_leb (pos 1) min_version && int_leb min_version version ≡ true
    → (negotiated p
        (record { version = version; min_version = min_version })
        (negotiate local_range
          (record { version = version; min_version = min_version })
          ours
          theirs)).status
      ≡ expected_status (record { version = version; min_version = min_version })
unfolding negotiate valid http_status
negotiated-status p (pos v) (pos m) ours theirs ok =
    let low : leb 1 m ≡ true = ground arith in
    let rises : leb m v ≡ true = ground arith in
    let high : leb 1 v ≡ true = ground arith in
    elim (Bool-cases (leb m 1)) [
      | inl old ↦ rw (low, rises, high, old) refl
      | inr new ↦ rw (low, rises, high, new) refl
    ]
negotiated-status p (pos v) (negsuc m) ours theirs ok = cc
negotiated-status p (negsuc v) (pos m) ours theirs ok = absurd (ground arith)
negotiated-status p (negsuc v) (negsuc m) ours theirs ok = cc

-- x > 0 is x >= 1.
not_positive-leb : (x : ℤ) → not_positive x ≡ false → int_leb (pos 1) x ≡ true
not_positive-leb (pos n) h = ground arith
not_positive-leb (negsuc n) h = cc

-- A range up to a version that is not positive has none.
no_range : (m v : ℤ) → not_positive v ≡ true → int_leb (pos 1) m && int_leb m v ≡ false
no_range (pos m) (pos v) h = ground arith
no_range (pos m) (negsuc v) h = ground arith
no_range (negsuc m) v h = refl

-- The oldest version of a client with the default filled in is positive.
client_range-leb :
    (req : NegotiateRequest)
    → not_positive req.protocol_version ≡ false
    → int_leb (pos 1) (client_range req).min_version ≡ true
client_range-leb req set = elim (Bool-cases (not_positive req.min_protocol_version)) [
  | inl left_out ↦ rw left_out (not_positive-leb req.protocol_version set)
  | inr given ↦ rw given (not_positive-leb req.min_protocol_version given)
]

-- A request with a range that passes the guards is negotiated.
negotiate_for-negotiated :
    (p : Process) (req : NegotiateRequest)
    → not_positive req.protocol_version ≡ false
    → int_leb (client_range req).min_version req.protocol_version ≡ true
    → negotiate_for p req
      ≡ negotiated p (client_range req) (
          negotiate local_range
            (client_range req)
            (new_set supported)
            (parse_capabilities p.platform req.capabilities))
negotiate_for-negotiated p req set rises = rw (set, rises) refl

negotiate_for-status :
    (p : Process) (req : NegotiateRequest)
    → (negotiate_for p req).status ≡ expected_status (client_range req)
unfolding http_status
negotiate_for-status p req = elim (Bool-cases (not_positive req.protocol_version)) [
  | inl unset ↦ rw (unset, no_range (client_range req).min_version req.protocol_version unset) refl
  | inr set ↦ elim (Bool-cases (int_leb (client_range req).min_version req.protocol_version)) [
    | inl rises ↦
        ap (λ (r : Response). r.status) (negotiate_for-negotiated p req set rises)
        ∙ negotiated-status p req.protocol_version (client_range req).min_version _ _
            (rw (client_range-leb req set) rises)
    | inr falls ↦ rw (set, falls, client_range-leb req set) refl
  ]
]

-- handleNegotiate answers 400 exactly when the client's range, with the oldest version that it
-- leaves out filled in, is no range of positive versions, 200 exactly when it is one and has a
-- version that this build speaks, and 426 in every other case.
pub handle_negotiate-expected_status :
    (p : Process) (req : NegotiateRequest)
    → (handle_negotiate p (decoded req)).status ≡ expected_status (client_range req)
unfolding handle_negotiate
handle_negotiate-expected_status p req = negotiate_for-status p req
