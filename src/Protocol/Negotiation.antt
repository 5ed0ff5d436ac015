-- ===== src/Protocol/Negotiation.antt =====
-- What Negotiate agrees on.
use headnet.Base.{
  ◌≡◌, ap, ◌∙◌, Bool, true, false, ◌&&◌, not, arith, Bool-cases, inl, inr, if◌then◌else◌,
}
use headnet.Base.Int.{
  ℤ, int_leb, int_min, int_max, int_leb_trans, int_min-left, int_min-right, int_min-greatest,
  int_max-left, int_max-right, int_max-least, int_min_comm, int_max_comm,
}
use headnet.Protocol.{
  Set, Capability, Range, valid, has, intersect, agreed, refused, incompatible, negotiate,
}
use headnet.Protocol.Sets.{has-intersect}

-- The version lies in the range.
abbrev pub accepts : Range → ℤ → Bool
accepts r v = int_leb r.min_version v && int_leb v r.version

valid_order : (r : Range) → valid r ≡ true → int_leb r.min_version r.version ≡ true
unfolding valid
valid_order r v = ground arith

module _ (local remote : Range) (local_caps remote_caps : Set) where
  abbrev high : ℤ
  high = int_min local.version remote.version

  abbrev low : ℤ
  low = int_max local.min_version remote.min_version

  negotiate-agreed :
      valid local ≡ true
      → valid remote ≡ true
      → int_leb low high ≡ true
      → negotiate local remote local_caps remote_caps
        ≡ agreed high (intersect local_caps remote_caps)
  unfolding negotiate
  negotiate-agreed vl vr overlap = rw (vl, vr, overlap)

  accepted : int_leb low high ≡ true → (accepts local high ≡ true) × (accepts remote high ≡ true)
  accepted overlap =
      let ml =
        int_leb_trans local.min_version low high (int_max-left local.min_version remote.min_version)
          overlap in
      let mr =
        int_leb_trans remote.min_version low high
          (int_max-right local.min_version remote.min_version) overlap in
      (
        rw (ml, int_min-left local.version remote.version),
        rw (mr, int_min-right local.version remote.version),
      )

  overlaps :
      (u : ℤ)
      → accepts local u ≡ true
      → accepts remote u ≡ true
      → (int_leb low u ≡ true) × (int_leb u high ≡ true)
  overlaps u l r = (
    int_max-least local.min_version remote.min_version u (ground arith) (ground arith),
    int_min-greatest local.version remote.version u (ground arith) (ground arith),
  )

  -- For two valid ranges that share a version, Negotiate agrees on a version of both ranges that is
  -- no lower than any shared one, and on the intersection of the capabilities.
  pub negotiate-highest :
      (u : ℤ)
      → valid local ≡ true
      → valid remote ≡ true
      → accepts local u ≡ true
      → accepts remote u ≡ true
      → (v : ℤ) × (negotiate local remote local_caps remote_caps
          ≡ agreed v (intersect local_caps remote_caps))
        × (accepts local v ≡ true)
        × (accepts remote v ≡ true)
        × (int_leb u v ≡ true)
  negotiate-highest u vl vr l r =
      let (above, below) = overlaps u l r in
      let overlap = int_leb_trans low u high above below in
      let (al, ar) = accepted overlap in (high, negotiate-agreed vl vr overlap, al, ar, below)

  agreed_inv :
      {v : ℤ} {caps : Set}
      → negotiate local remote local_caps remote_caps ≡ agreed v caps
      → (valid local ≡ true)
        × (valid remote ≡ true)
        × (int_leb low high ≡ true)
        × (agreed high (intersect local_caps remote_caps) ≡ agreed v caps)
  unfolding negotiate
  agreed_inv h = elim (Bool-cases (valid local)) [
    | inr nl ↦ cc (rw nl at h)
    | inl vl ↦ elim (Bool-cases (valid remote)) [
      | inr nr ↦ cc (rw (vl, nr) at h)
      | inl vr ↦ elim (Bool-cases (int_leb low high)) [
        | inr apart ↦ cc (rw (vl, vr, apart) at h)
        | inl overlap ↦ (vl, vr, overlap, rw (vl, vr, overlap) at h)
      ]
    ]
  ]

  incompatible_inv :
      {a b : Range} {old : Bool}
      → negotiate local remote local_caps remote_caps ≡ refused (incompatible a b old)
      → (valid local ≡ true)
        × (valid remote ≡ true)
        × (int_leb low high ≡ false)
        × (not (int_leb local.min_version remote.version) ≡ old)
  unfolding negotiate
  incompatible_inv h = elim (Bool-cases (valid local)) [
    | inr nl ↦ cc (rw nl at h)
    | inl vl ↦ elim (Bool-cases (valid remote)) [
      | inr nr ↦ cc (rw (vl, nr) at h)
      | inl vr ↦ elim (Bool-cases (int_leb low high)) [
        | inl overlap ↦ cc (rw (vl, vr, overlap) at h)
        | inr apart ↦ (vl, vr, apart, cc (rw (vl, vr, apart) at h))
      ]
    ]
  ]

  -- When Negotiate reports two ranges as incompatible, it names the stale side: either the peer's
  -- newest version is below this side's oldest, and the peer is said to be too old, or this side's
  -- newest is below the peer's oldest.
  negotiate-incompatible :
      {a b : Range} {old : Bool}
      → negotiate local remote local_caps remote_caps ≡ refused (incompatible a b old)
      → (if old
          then int_leb local.min_version remote.version
          else int_leb remote.min_version local.version)
        ≡ false
  negotiate-incompatible {a} {b} {old} h =
      let (vl, vr, apart, told) = incompatible_inv h in
      named (valid_order local vl) (valid_order remote vr) apart told
    where
      named :
          int_leb local.min_version local.version ≡ true
          → int_leb remote.min_version remote.version ≡ true
          → int_leb low high ≡ false
          → not (int_leb local.min_version remote.version) ≡ old
          → (if old
              then int_leb local.min_version remote.version
              else int_leb remote.min_version local.version)
            ≡ false
      named ll rr apart told = ground (
        arith,
        int_max-least local.min_version remote.min_version high,
        int_min-greatest local.version remote.version local.min_version,
        int_min-greatest local.version remote.version remote.min_version,
      )

agreed-injective :
    {v v' : ℤ} {caps caps' : Set} → agreed v caps ≡ agreed v' caps' → (v ≡ v') × (caps ≡ caps')
agreed-injective h = (cc, cc)

-- When Negotiate agrees, the peer, which negotiates the other way round, agrees on the same version
-- and on a set with the same capabilities.
pub negotiate-symmetric :
    (local remote : Range) (local_caps remote_caps : Set) (c : Capability) {v : ℤ} {caps : Set}
    → negotiate local remote local_caps remote_caps ≡ agreed v caps
    → (caps' : Set) × (negotiate remote local remote_caps local_caps ≡ agreed v caps')
      × (has caps' c ≡ has caps c)
negotiate-symmetric local remote local_caps remote_caps c h =
    let (vl, vr, overlap, same) = agreed_inv local remote local_caps remote_caps h in
    let (v_eq, caps_eq) = agreed-injective same in
    let overlap' : int_leb (int_max remote.min_version local.min_version)
          (int_min remote.version local.version)
        ≡ true =
      rw
        (
          int_max_comm remote.min_version local.min_version,
          int_min_comm remote.version local.version,
        )
        overlap in
    (
      intersect remote_caps local_caps,
      negotiate-agreed remote local remote_caps local_caps vr vl overlap'
          ∙ ap (λ x. agreed x (intersect remote_caps local_caps))
              (int_min_comm remote.version local.version ∙ v_eq),
      ground (
        arith,
        ap (λ s. has s c) caps_eq,
        has-intersect remote_caps local_caps c,
        has-intersect local_caps remote_caps c,
      ),
    )
