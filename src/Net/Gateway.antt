-- ===== src/Net/Gateway.antt =====
-- Which gateway `get_default_gateway` of src/base/net.c finds.
use knetutils.Base.{ℕ}
use knetutils.Base.{◌≡◌, refl, ap₂, inl, inr, arith}
use knetutils.Base.{◌&&◌, Option, none, some, List, [], ◌∷◌}
use knetutils.Base.{◌==◌, Bool-cases, Option-cases}
use knetutils.Base.{u32}
use knetutils.Base.{Text, codes, same_text, same_text_refl, same_text_sound}
use knetutils.Net.Kernel.{Reply, Kernel, call, open_fd, fopen}
use knetutils.Net.Lookups.{
  Route, gateway_of, find_gateway, past_heading, routes_opened, get_default_gateway,
}
use knetutils.Net.First.{IsSearched, search_ends, search_hits, search_passes}

module _ (scan_route : Text → Option Route) (iface : Text) where
  -- The line shows a route to 0.0.0.0 through the interface, over the gateway `gw`.
  pub record IsDefaultRoute (line : Text) (gw : ℕ) : Type 0 where
    pub shown_gateway : ℕ
    pub shows : scan_route line ≡ some (iface, (0, shown_gateway))
    pub as_address : gw ≡ u32 shown_gateway

  gateway_of-shown :
      (route : Option Route) (gw : ℕ)
      → gateway_of iface route ≡ some gw
      → (shown : ℕ) × (route ≡ some (iface, (0, shown))) × (gw ≡ u32 shown)
  unfolding gateway_of
  gateway_of-shown none gw e = ground (arith, e)
  gateway_of-shown (some (name, (dst, shown))) gw e =
      elim (Bool-cases (dst == 0 && same_text name iface)) [
        | inr f ↦ ground (arith, e, f)
        | inl t ↦
            let same : name ≡ iface = same_text_sound name iface (ground (arith, t)) in
            let to_all : dst ≡ 0 = ground (arith, t) in
            let address : gw ≡ u32 shown = ground (arith, e, t) in
            (shown, ap₂ (λ n d. some (n, (d, shown))) same to_all, address)
      ]

  gateway_of-IsDefaultRoute :
      (line : Text) (gw : ℕ) → IsDefaultRoute line gw → gateway_of iface (scan_route line) ≡ some gw
  unfolding gateway_of
  gateway_of-IsDefaultRoute line gw r = rw (r.shows, same_text_refl iface, r.as_address) refl

  find_gateway-IsSearched :
      (lines : List Text) → IsSearched IsDefaultRoute lines (find_gateway scan_route iface lines)
  unfolding find_gateway
  find_gateway-IsSearched [] = search_ends IsDefaultRoute
  find_gateway-IsSearched (line ∷ lines) =
      elim (Option-cases (gateway_of iface (scan_route line))) [
        | inr (gw, e) ↦
            let (shown, shows, address) = gateway_of-shown (scan_route line) gw e in
            rw (find_gateway, e)
              (search_hits IsDefaultRoute line lines gw
                (record { shown_gateway = shown; shows = shows; as_address = address }))
        | inl e ↦
            rw (find_gateway, e)
              (search_passes IsDefaultRoute line lines (find_gateway scan_route iface lines)
                (λ gw r. absurd (ground (arith, e, gateway_of-IsDefaultRoute line gw r)))
                (find_gateway-IsSearched lines))
      ]

-- When the routing table can be opened and has a heading, `get_default_gateway` gives the gateway of the
-- first line behind the heading that shows a route to 0.0.0.0 through the interface, as 32 bits, and
-- nothing when no line shows one.
pub get_default_gateway_lem :
    (scan_route : Text → Option Route) (iface : Text) (k : Kernel) (r : Reply) (heading : Text)
    (lines : List Text)
    → k.answer k.log (fopen (codes "/proc/net/route")) ≡ some r
    → k.route_lines ≡ heading ∷ lines
    → IsSearched (IsDefaultRoute scan_route iface) lines (get_default_gateway scan_route iface k).0
unfolding get_default_gateway routes_opened past_heading open_fd call
get_default_gateway_lem scan_route iface k r heading lines opened read =
    rw (opened, read) (find_gateway-IsSearched scan_route iface lines)
