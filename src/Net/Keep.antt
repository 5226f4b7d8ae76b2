-- ===== src/Net/Keep.antt =====
-- What the lookups of src/base/net.c hold when they return.
use knetutils.Base.{ℕ, ◌-◌}
use knetutils.Base.{◌≡◌, refl, arith}
use knetutils.Base.{Option, none, some, List, [], ◌∷◌, ◌++◌}
use knetutils.Base.{Text}
use knetutils.Base.{Family}
use knetutils.Net.Kernel.{
  Call, Reply, Kernel, M, ◌>>=◌, pure, call, open_fd, hold_fd, hold_block, remove, allocate,
  connect, if_nametoindex, sysctl, SameResources, Keeps, Keeps-call, calloc, Closes,
}
use knetutils.Base.{
  ap, Bool, true, false, if◌then◌else◌, ◌+◌, zero, suc, ltb, Option-cases, inl, inr, ◌==◌, ◌∙◌,
}
use knetutils.Net.Sockets.{get_iface_index}
use knetutils.Net.Routes.{
  RouteHeaders, links_listed, bsd_get_iface_mac, gateway_in, find_route, routes_filled,
  buf_allocated, routes_sized, bsd_get_default_gateway,
}
use knetutils.Net.Lookups.{
  mac_opened, get_iface_mac, addrs_listed, get_iface_addr, host_resolved, resolve_host,
  ipv4_resolved, resolve_ipv4, Route, routes_opened, get_default_gateway, with_port, connected,
  source_opened, get_source_ip_for,
}

module _ {A : Type 0} where
  Keeps-open :
      (c : Call) (next : Option ℕ → M A)
      → Keeps (next none)
      → ((fd : ℕ) → Closes fd (next (some fd)))
      → Keeps (open_fd c >>= next)
  unfolding open_fd call
  Keeps-open c next failed went k = behind (k.answer k.log c)
    where
      k₁ : Kernel
      k₁ = record k { log = k.log ++ (c ∷ []) }

      behind : (r : Option Reply) → SameResources k ((hold_fd r >>= next) k₁).1
      behind none =
          let s = failed k₁ in record { same_opened = s.same_opened; same_blocks = s.same_blocks }
      behind (some (fd, bytes)) =
          let s = went fd (hold_fd (some (fd, bytes)) k₁).1 k.opened refl in
          record { same_opened = s.0; same_blocks = s.1 }

  Keeps-allocate :
      (c : Call) (next : Option Reply → M A)
      → Keeps (next none)
      → ((r : Reply) (k : Kernel)
          → ((next (some r) k).1.opened ≡ k.opened) × ((next (some r) k).1.blocks ≡ k.blocks - 1))
      → Keeps (allocate c >>= next)
  unfolding allocate call
  Keeps-allocate c next failed went k = behind (k.answer k.log c)
    where
      k₁ : Kernel
      k₁ = record k { log = k.log ++ (c ∷ []) }

      behind : (r : Option Reply) → SameResources k ((hold_block r >>= next) k₁).1
      behind none =
          let s = failed k₁ in record { same_opened = s.same_opened; same_blocks = s.same_blocks }
      behind (some r) =
          let s = went r (hold_block (some r) k₁).1 in
          record { same_opened = s.0; same_blocks = omega (arith, s.1) }

remove_head : (fd : ℕ) (k : Kernel) (fds : List ℕ) → k.opened ≡ fd ∷ fds → remove fd k.opened ≡ fds
remove_head fd k fds e = rw e (ground arith)

mac-Closes : (iface : Text) (fd : ℕ) → Closes fd (mac_opened iface (some fd))
unfolding mac_opened
mac-Closes iface fd k fds e = (remove_head fd k fds e, refl)

connected-Closes : (fd : ℕ) (r : Option Reply) → Closes fd (connected fd r)
unfolding connected
connected-Closes fd none k fds e = (remove_head fd k fds e, refl)
connected-Closes fd (some r) k fds e = (remove_head fd k fds e, refl)

source-Closes :
    (family : Family) (dst : List ℕ) (fd : ℕ) → Closes fd (source_opened family dst (some fd))
unfolding source_opened
source-Closes family dst fd k fds e =
    let c : Call = connect fd (with_port family dst) in
    connected-Closes fd (k.answer k.log c) (record k { log = k.log ++ (c ∷ []) }) fds e

routes-Closes :
    (scan_route : Text → Option Route) (iface : Text) (fd : ℕ)
    → Closes fd (routes_opened scan_route iface (some fd))
unfolding routes_opened
routes-Closes scan_route iface fd k fds e = (remove_head fd k fds e, refl)

nothing : (A : Type 0) → Keeps (pure {A = Option A} none)
nothing A k = record { same_opened = refl; same_blocks = refl }

-- One action behind another.
Keeps-then :
    {A B : Type 0} (m : M A) (f : A → M B) → Keeps m → ((a : A) → Keeps (f a)) → Keeps (m >>= f)
Keeps-then m f first second k =
    let s = first k in
    let t = second (m k).0 (m k).1 in
    record {
      same_opened = t.same_opened ∙ s.same_opened;
      same_blocks = t.same_blocks ∙ s.same_blocks;
    }

index-Keeps : (iface : Text) → Keeps (get_iface_index iface)
unfolding get_iface_index call
index-Keeps iface k = elim (Option-cases (k.answer k.log (if_nametoindex iface))) [
  | inl e ↦ rw e (record { same_opened = refl; same_blocks = refl })
  | inr (r, e) ↦ rw e (record { same_opened = refl; same_blocks = refl })
]

found-Keeps : (A : Type 0) (a : A) → Keeps (pure a)
found-Keeps A a k = record { same_opened = refl; same_blocks = refl }

chosen-Keeps :
    {A : Type 0} (test : Bool) (m n : M A) → Keeps m → Keeps n → Keeps (if test then m else n)
chosen-Keeps true m n hm hn = hm
chosen-Keeps false m n hm hn = hn

-- The loop over the messages takes and hands back nothing.
route-Keeps :
    (h : RouteHeaders) (buf : List ℕ) (fuel : ℕ) (iface : Text) (next lim : ℕ)
    → Keeps (find_route h buf fuel iface next lim)
unfolding find_route
route-Keeps h buf zero iface next lim = found-Keeps (Option (Option ℕ)) none
route-Keeps h buf (suc fuel) iface next lim =
    let rest = find_route h buf fuel iface (next + h.rtm_msglen buf next) lim in
    let rest_keeps = route-Keeps h buf fuel iface (next + h.rtm_msglen buf next) lim in
    chosen-Keeps (ltb next lim) _ (pure (some none))
      (elim (gateway_in h buf next)
        as (λ g. Keeps (elim g as (λ _. M (Option (Option ℕ))) [
          | none ↦ rest
          | some gw ↦ get_iface_index iface >>= λ index.
              if h.rtm_index buf next == index then pure (some (some gw)) else rest
        ])) [
          | none ↦ rest_keeps
          | some gw ↦
              Keeps-then (get_iface_index iface)
                (λ index. if h.rtm_index buf next == index then pure (some (some gw)) else rest)
                (index-Keeps iface)
                (λ index.
                  chosen-Keeps (h.rtm_index buf next == index) (pure (some (some gw))) rest
                    (found-Keeps (Option (Option ℕ)) (some (some gw))) rest_keeps)
        ])
      (found-Keeps (Option (Option ℕ)) (some none))

-- Behind the allocation of the buffer: it is freed.
filled-Frees :
    (h : RouteHeaders) (fuel : ℕ) (iface : Text) (r : Option Reply) (k : Kernel)
    → ((routes_filled h fuel iface r k).1.opened ≡ k.opened)
      × ((routes_filled h fuel iface r k).1.blocks ≡ k.blocks - 1)
unfolding routes_filled
filled-Frees h fuel iface none k = (refl, refl)
filled-Frees h fuel iface (some (len, buf)) k =
    let s = route-Keeps h buf fuel iface 0 len k in (s.same_opened, ap (λ n. n - 1) s.same_blocks)

sized-Keeps :
    (h : RouteHeaders) (fuel : ℕ) (iface : Text) (r : Option Reply)
    → Keeps (routes_sized h fuel iface r)
unfolding routes_sized buf_allocated call
sized-Keeps h fuel iface none = found-Keeps (Option (Option ℕ)) (some none)
sized-Keeps h fuel iface (some (len, bytes)) =
    Keeps-allocate calloc (buf_allocated h fuel iface len)
      (found-Keeps (Option (Option ℕ)) (some none))
      (λ r k.
        filled-Frees h fuel iface (k.answer k.log (sysctl (some len)))
          (record k { log = k.log ++ (sysctl (some len) ∷ []) }))

-- Every lookup, on Linux and on BSD, hands back, on each of its paths, the descriptors and the memory that it
-- takes, whatever the kernel and the C library answer.
pub lookups-Keep :
    (scan_route : Text → Option Route) (h : RouteHeaders) (fuel : ℕ) (name : Text) (family : Family)
    (dst : List ℕ)
    → Keeps (get_iface_mac name)
      × Keeps (get_iface_addr name)
      × Keeps (resolve_host name family)
      × Keeps (resolve_ipv4 name)
      × Keeps (get_default_gateway scan_route name)
      × Keeps (get_source_ip_for family dst)
      × Keeps (bsd_get_iface_mac name)
      × Keeps (bsd_get_default_gateway h fuel name)
unfolding get_iface_mac get_iface_addr resolve_host resolve_ipv4 get_default_gateway
    get_source_ip_for mac_opened addrs_listed host_resolved ipv4_resolved routes_opened
    source_opened bsd_get_iface_mac links_listed bsd_get_default_gateway
lookups-Keep scan_route h fuel name family dst = (
  Keeps-open _ (mac_opened name) (nothing (List ℕ)) (mac-Closes name),
  Keeps-allocate _ (addrs_listed name) (nothing ℕ) (λ r k. (refl, refl)),
  Keeps-allocate _ host_resolved (nothing (List ℕ)) (λ r k. (refl, refl)),
  Keeps-allocate _ ipv4_resolved (nothing ℕ) (λ r k. (refl, refl)),
  Keeps-open _ (routes_opened scan_route name) (nothing ℕ) (routes-Closes scan_route name),
  Keeps-open _ (source_opened family dst) (nothing (List ℕ)) (source-Closes family dst),
  Keeps-allocate _ (links_listed name) (nothing (List ℕ)) (λ r k. (refl, refl)),
  Keeps-then (call (sysctl none)) (routes_sized h fuel name) (Keeps-call (sysctl none))
      (sized-Keeps h fuel name),
)
