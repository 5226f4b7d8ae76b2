-- ===== src/Net/Layout.antt =====
-- Where the addresses of a message of a routing table stand, described without the code, and that the loop of
-- `get_default_gateway` of src/base/net.c, for BSD, reads them there.
use knetutils.Base.{ℕ, zero, suc, ◌+◌, ◌*◌, ◌/◌, ◌≤◌, ◌<◌}
use knetutils.Base.{◌≡◌, refl, sym, ap, ap₂, ◌∙◌, ◌⊎◌, inl, inr, arith}
use knetutils.Base.{Bool, true, false, ◌&&◌, Option, none, some, List}
use knetutils.Base.{ltb, ◌==◌, if◌then◌else◌, Bool-cases}
use knetutils.Base.{le32, has_bit}
use mathlib.Core.Path.{subst}
use native.Mathlib.Decide.{ℕ_discrete}
use knetutils.Net.Routes.{
  RouteHeaders, roundup, Addresses, take_address, take_addresses, default_gateway, gateway_in,
}

-- From one address to the next: the length `len` is padded to the next multiple of 8, at least 8, and an
-- address that is not there takes no room.
abbrev pub IsNext : Bool → ℕ → ℕ → ℕ → Type 0
IsNext false len here next = next ≡ here
IsNext true len here next =
    (words : ℕ) × (next ≡ here + 8 * words)
    × (1 ≤ words)
    × (len ≤ 8 * words)
    × ((8 * words < len + 8) ⊎ (words ≡ 1))

module _ (h : RouteHeaders) (buf : List ℕ) (rtm : ℕ) where
  -- The message has an address of that kind.
  abbrev pub HasKind : ℕ → Type 0
  HasKind kind = (kind < h.rtax_max) × (has_bit (h.rtm_addrs buf rtm) kind ≡ true)

  -- `place` is where the addresses of each kind stand: one behind the other, behind the header.
  pub record IsPlace (place : ℕ → ℕ) : Type 0 where
    pub first : place 0 ≡ rtm + h.rtm_size
    pub others :
        (kind : ℕ)
        → IsNext
            (has_bit (h.rtm_addrs buf rtm) kind)
            (h.sa_len buf (place kind))
            (place kind)
            (place (suc kind))

  -- The message at the offset `rtm` is a route to 0.0.0.0 over the gateway `gw`.
  pub record IsDefaultRoute (gw : ℕ) : Type 0 where
    pub place : ℕ → ℕ
    pub is_place : IsPlace place
    pub has_dst : HasKind h.rtax_dst
    pub has_gateway : HasKind h.rtax_gateway
    pub to_all : le32 buf (place h.rtax_dst + 4) ≡ 0
    pub over : gw ≡ le32 buf (place h.rtax_gateway + 4)

  abbrev there : ℕ → Bool
  there kind = has_bit (h.rtm_addrs buf rtm) kind

  -- What the loop computes.
  abbrev offset_of : ℕ → ℕ
  offset_of zero = rtm + h.rtm_size
  offset_of (suc kind) =
      if there kind
      then offset_of kind + roundup (h.sa_len buf (offset_of kind))
      else offset_of kind

  offset_of-IsPlace : IsPlace offset_of
  offset_of-IsPlace = record {
    first = refl;
    others = λ kind. step (there kind) (h.sa_len buf (offset_of kind)) (offset_of kind);
  }
    where
      step : (b : Bool) (len here : ℕ) → IsNext b len here (if b then here + roundup len else here)
      step false len here = refl
      step true zero here = (1, refl, omega arith, omega arith, inr refl)
      step true (suc len) here =
          (len / 8 + 1, ground arith, omega arith, omega arith, inl (omega arith))

  next_unique :
      (b : Bool) (len here next : ℕ)
      → IsNext b len here next
      → next ≡ (if b then here + roundup len else here)
  next_unique false len here next e = e
  next_unique true len here next (words, e, some_room, room, inl tight) = ground (arith, e)
  next_unique true len here next (words, e, some_room, room, inr one) = ground (arith, e)

  IsPlace-unique : (place : ℕ → ℕ) → IsPlace place → (kind : ℕ) → place kind ≡ offset_of kind
  IsPlace-unique place p zero = p.first
  IsPlace-unique place p (suc kind) =
      let here = IsPlace-unique place p kind in
      next_unique (there kind) (h.sa_len buf (place kind)) (place kind) (place (suc kind))
        (p.others kind)
      ∙ ap (λ i. if there kind then i + roundup (h.sa_len buf i) else i) here

  -- The address of a kind, once the loop has passed it.
  abbrev seen : ℕ → ℕ → Option ℕ
  seen i kind = if ltb kind i && there kind then some (offset_of kind) else none

  abbrev at_round : ℕ → Addresses
  at_round i = record { sa = offset_of i; dst = seen i h.rtax_dst; gw = seen i h.rtax_gateway }

  seen-suc :
      (i kind : ℕ)
      → there i ≡ true
      → (if i == kind then some (offset_of i) else seen i kind) ≡ seen (suc i) kind
  seen-suc i kind t = elim (ℕ_discrete i kind) [
    | yes e ↦
        subst (λ k. (if i == k then some (offset_of i) else seen i k) ≡ seen (suc i) k) e
          (let same : (i == i) ≡ true = ground arith in
            let passed : ltb i (suc i) ≡ true = ground arith in rw (same, passed, t) refl)
    | no ne ↦
        let other : (i == kind) ≡ false = ground (arith, ne) in
        let same : ltb kind (suc i) ≡ ltb kind i = ground (arith, ne) in rw (other, same) refl
  ]

  seen-absent : (i kind : ℕ) → there i ≡ false → seen i kind ≡ seen (suc i) kind
  seen-absent i kind t = elim (ℕ_discrete i kind) [
    | yes e ↦
        subst (λ k. seen i k ≡ seen (suc i) k) e
          (let short : ltb i i ≡ false = ground arith in rw (short, t) (ground arith))
    | no ne ↦ let same : ltb kind (suc i) ≡ ltb kind i = ground (arith, ne) in rw same refl
  ]

  abbrev passed : ℕ → Option ℕ → Option ℕ → Addresses
  passed sa dst gw = record { sa = sa; dst = dst; gw = gw }

  take_address-at_round : (i : ℕ) → take_address h buf rtm i (at_round i) ≡ at_round (suc i)
  take_address-at_round i = elim (Bool-cases (there i)) [
    | inl t ↦ rw t (
        ap₂ (passed (offset_of i + roundup (h.sa_len buf (offset_of i)))) (seen-suc i h.rtax_dst t)
          (seen-suc i h.rtax_gateway t))
    | inr f ↦
        rw f
          (ap₂ (passed (offset_of i)) (seen-absent i h.rtax_dst f) (seen-absent i h.rtax_gateway f))
  ]

  take_addresses-at_round :
      (left i : ℕ) → take_addresses h buf rtm left i (at_round i) ≡ at_round (i + left)
  unfolding take_addresses
  take_addresses-at_round zero i = ap at_round (omega arith)
  take_addresses-at_round (suc left) i =
      ap (take_addresses h buf rtm left (i + 1))
        (take_address-at_round i ∙ ap at_round (omega arith))
      ∙ take_addresses-at_round left (i + 1)
      ∙ ap at_round (omega arith)

  gateway_in-seen :
      gateway_in h buf rtm
      ≡ default_gateway h buf (seen h.rtax_max h.rtax_dst) (seen h.rtax_max h.rtax_gateway)
  unfolding gateway_in
  gateway_in-seen =
      let end : take_addresses h buf rtm h.rtax_max 0 (at_round 0) ≡ at_round h.rtax_max =
        take_addresses-at_round h.rtax_max 0 ∙ ap at_round (omega arith) in
      let unseen : (kind : ℕ) → none ≡ seen 0 kind = λ kind. ground arith in
      let start : passed (rtm + h.rtm_size) none none ≡ at_round 0 =
        ap₂ (passed (rtm + h.rtm_size)) (unseen h.rtax_dst) (unseen h.rtax_gateway) in
      ap (λ (a : Addresses). default_gateway h buf a.dst a.gw)
        (ap (take_addresses h buf rtm h.rtax_max 0) start ∙ end)

  pub gateway_in_complete : (gw : ℕ) → IsDefaultRoute gw → gateway_in h buf rtm ≡ some gw
  gateway_in_complete gw r =
      let dst = IsPlace-unique r.place r.is_place h.rtax_dst in
      let gateway = IsPlace-unique r.place r.is_place h.rtax_gateway in
      let dst_seen : seen h.rtax_max h.rtax_dst ≡ some (offset_of h.rtax_dst) =
        ground (arith, r.has_dst) in
      let gateway_seen : seen h.rtax_max h.rtax_gateway ≡ some (offset_of h.rtax_gateway) =
        ground (arith, r.has_gateway) in
      let to_all : le32 buf (offset_of h.rtax_dst + 4) ≡ 0 =
        sym (ap (λ i. le32 buf (i + 4)) dst) ∙ r.to_all in
      let over : gw ≡ le32 buf (offset_of h.rtax_gateway + 4) =
        r.over ∙ ap (λ i. le32 buf (i + 4)) gateway in
      gateway_in-seen ∙ rw (dst_seen, gateway_seen, to_all, over) refl

  default_gateway-some :
      (dst gateway : Option ℕ) (gw : ℕ)
      → default_gateway h buf dst gateway ≡ some gw
      → (d : ℕ) × (i : ℕ) × (dst ≡ some d)
        × (gateway ≡ some i)
        × (le32 buf (d + 4) ≡ 0)
        × (gw ≡ le32 buf (i + 4))
  default_gateway-some none gateway gw e = ground (arith, e)
  default_gateway-some (some d) none gw e = ground (arith, e)
  default_gateway-some (some d) (some i) gw e =
      (d, i, refl, refl, ground (arith, e), ground (arith, e))

  seen-some : (kind at : ℕ) → seen h.rtax_max kind ≡ some at → HasKind kind × (at ≡ offset_of kind)
  seen-some kind at e = ground (arith, e)

  pub gateway_in_sound : (gw : ℕ) → gateway_in h buf rtm ≡ some gw → IsDefaultRoute gw
  gateway_in_sound gw e =
      let (d, i, dst_seen, gateway_seen, to_all, over) =
        default_gateway-some (seen h.rtax_max h.rtax_dst) (seen h.rtax_max h.rtax_gateway) gw
          (sym gateway_in-seen ∙ e) in
      let (has_dst, dst) = seen-some h.rtax_dst d dst_seen in
      let (has_gateway, gateway) = seen-some h.rtax_gateway i gateway_seen in
      record {
        place = offset_of;
        is_place = offset_of-IsPlace;
        has_dst = has_dst;
        has_gateway = has_gateway;
        to_all = ap (λ j. le32 buf (j + 4)) (sym dst) ∙ to_all;
        over = over ∙ ap (λ j. le32 buf (j + 4)) gateway;
      }
