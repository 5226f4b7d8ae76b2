-- ===== src/Net/Balance.antt =====
-- The resources that the functions of src/base/net.c hold when they return.
use knetutils.Base.{ℕ, suc}
use knetutils.Base.{◌≡◌, refl, sym, ap, ◌∙◌, inl, inr, arith}
use knetutils.Base.{Bool, true, false, Option, none, some, List, [], ◌∷◌, ◌++◌}
use knetutils.Base.{◌==◌, Bool-cases, Option-cases}
use knetutils.Base.{Text}
use knetutils.Base.{Family}
use knetutils.Net.Kernel.{
  Call, calloc, if_nametoindex, Reply, Kernel, M, ◌>>=◌, call, open_fd, hold_fd, remove, close_fd,
  allocate, free, SameResources, Keeps,
}
use knetutils.Net.Sockets.{
  NetSocket, get_iface_index, close_none, wrap_socket, behind_bind, bind_raw, raw_opened,
  dgram_opened, icmp_opened, ip_opened, open_raw_socket, open_icmp_socket, open_ip_raw_socket,
  close_raw_socket,
}

-- What an opening function leaves: without a socket nothing, and with one its descriptor and its
-- block, which `close_raw_socket` gives back.
abbrev pub IsOpened : Kernel → Option NetSocket × Kernel → Type 0
IsOpened k (none, k') = SameResources k k'
IsOpened k (some sock, k') =
    (k'.opened ≡ sock.fd ∷ k.opened)
    × (k'.blocks ≡ suc k.blocks)
    × SameResources k (close_raw_socket (some sock) k').1

-- The same, on a descriptor that is open already.
abbrev pub IsWrapped : ℕ → Kernel → Option NetSocket × Kernel → Type 0
IsWrapped fd k (none, k') = (k'.opened ≡ remove fd k.opened) × (k'.blocks ≡ k.blocks)
IsWrapped fd k (some sock, k') =
    (sock.fd ≡ fd) × (k'.opened ≡ k.opened) × (k'.blocks ≡ suc k.blocks)

wrap_lem :
    (fd ifindex : ℕ) (is_dgram : Bool) (k : Kernel)
    → IsWrapped fd k (wrap_socket fd ifindex is_dgram k)
unfolding wrap_socket allocate call close_fd
wrap_lem fd ifindex is_dgram k = elim (Option-cases (k.answer k.log calloc)) [
  | inl e ↦ rw e (refl, refl)
  | inr (r, e) ↦ rw e (refl, refl, refl)
]

close-none_lem : (fd : ℕ) (k : Kernel) → IsWrapped fd k (close_none fd k)
unfolding close_fd
close-none_lem fd k = (refl, refl)

moved :
    (fd : ℕ) (k k₁ : Kernel) (out : Option NetSocket × Kernel)
    → k₁.opened ≡ k.opened
    → k₁.blocks ≡ k.blocks
    → IsWrapped fd k₁ out
    → IsWrapped fd k out
moved fd k k₁ (none, k') eo eb w = (w.0 ∙ ap (remove fd) eo, w.1 ∙ eb)
moved fd k k₁ (some sock, k') eo eb w = (w.0, w.1 ∙ eo, w.2 ∙ ap suc eb)

behind_bind_lem :
    (fd ifindex : ℕ) (r : Option Reply) (k k₁ : Kernel)
    → k₁.opened ≡ k.opened
    → k₁.blocks ≡ k.blocks
    → IsWrapped fd k (behind_bind fd ifindex r k₁)
unfolding behind_bind
behind_bind_lem fd ifindex none k k₁ eo eb =
    moved fd k k₁ (close_none fd k₁) eo eb (close-none_lem fd k₁)
behind_bind_lem fd ifindex (some r) k k₁ eo eb =
    moved fd k k₁ (wrap_socket fd ifindex false k₁) eo eb (wrap_lem fd ifindex false k₁)

bind_lem : (fd protocol ifindex : ℕ) (k : Kernel) → IsWrapped fd k (bind_raw fd protocol ifindex k)
unfolding bind_raw call
bind_lem fd protocol ifindex k = elim (Bool-cases (ifindex == 0)) [
  | inl e ↦ rw e (close-none_lem fd k)
  | inr e ↦ rw e (behind_bind_lem fd ifindex (k.answer k.log _) k _ refl refl)
]

remove_head : (fd : ℕ) (xs : List ℕ) → remove fd (fd ∷ xs) ≡ xs
remove_head fd xs = ground arith

-- What a function that goes on from a new descriptor leaves.
opened_lem :
    (fd : ℕ) (k k₁ : Kernel) (out : Option NetSocket × Kernel)
    → k₁.opened ≡ fd ∷ k.opened
    → k₁.blocks ≡ k.blocks
    → IsWrapped fd k₁ out
    → IsOpened k out
unfolding close_raw_socket close_fd free
opened_lem fd k k₁ (none, k') eo eb w = record {
  same_opened = w.0 ∙ ap (remove fd) eo ∙ remove_head fd k.opened;
  same_blocks = w.1 ∙ eb;
}
opened_lem fd k k₁ (some sock, k') eo eb w =
    let held : k'.opened ≡ sock.fd ∷ k.opened = w.1 ∙ eo ∙ ap (λ f. f ∷ k.opened) (sym w.0) in
    let more : k'.blocks ≡ suc k.blocks = w.2 ∙ ap suc eb in
    (
      held,
      more,
      record {
        same_opened = ap (remove sock.fd) held ∙ remove_head sock.fd k.opened;
        same_blocks = omega arith;
      },
    )

-- Behind `open_fd`: what goes on with a descriptor, or returns nothing.
from_open :
    (c : Call) (next : Option ℕ → M (Option NetSocket)) (k : Kernel)
    → ((k₁ : Kernel) → SameResources k k₁ → IsOpened k (next none k₁))
    → ((fd : ℕ) (k₁ : Kernel) → IsWrapped fd k₁ (next (some fd) k₁))
    → IsOpened k ((open_fd c >>= next) k)
unfolding open_fd call
from_open c next k failed went = behind (k.answer k.log c)
  where
    k₁ : Kernel
    k₁ = record k { log = k.log ++ (c ∷ []) }

    behind : (r : Option Reply) → IsOpened k ((hold_fd r >>= next) k₁)
    behind none = failed k₁ (record { same_opened = refl; same_blocks = refl })
    behind (some (fd, bytes)) =
        opened_lem fd k (hold_fd (some (fd, bytes)) k₁).1 (next (some fd) _) refl refl (went fd _)

SameResources-trans :
    (k k₁ k₂ : Kernel) → SameResources k k₁ → SameResources k₁ k₂ → SameResources k k₂
SameResources-trans k k₁ k₂ s r = record {
  same_opened = r.same_opened ∙ s.same_opened;
  same_blocks = r.same_blocks ∙ s.same_blocks;
}

shifted :
    (k k₁ : Kernel) (out : Option NetSocket × Kernel)
    → SameResources k k₁
    → IsOpened k₁ out
    → IsOpened k out
shifted k k₁ (none, k') s o = SameResources-trans k k₁ k' s o
shifted k k₁ (some sock, k') s o = (
  o.0 ∙ ap (λ f. sock.fd ∷ f) s.same_opened,
  o.1 ∙ ap suc s.same_blocks,
  SameResources-trans k k₁ _ s o.2,
)

Keeps-index : (iface : Text) → Keeps (get_iface_index iface)
unfolding get_iface_index call
Keeps-index iface k = elim (Option-cases (k.answer k.log (if_nametoindex iface))) [
  | inl e ↦ rw e (record { same_opened = refl; same_blocks = refl })
  | inr (r, e) ↦ rw e (record { same_opened = refl; same_blocks = refl })
]

index_lem :
    (iface : Text) (fd protocol : ℕ) (k : Kernel)
    → IsWrapped fd k ((get_iface_index iface >>= bind_raw fd protocol) k)
index_lem iface fd protocol k =
    let s = Keeps-index iface k in
    let k₁ : Kernel = (get_iface_index iface k).1 in
    moved fd k k₁ (bind_raw fd protocol (get_iface_index iface k).0 k₁) s.same_opened s.same_blocks
      (bind_lem fd protocol (get_iface_index iface k).0 k₁)

-- Whatever the kernel answers, a function of the three that opens a socket either returns nothing and
-- has handed back every descriptor and block that it took, or returns a socket whose descriptor and
-- block are all that it holds, and that `close_raw_socket` hands back.
pub open_sockets-IsOpened :
    (k : Kernel) (iface : Text) (family : Family) (protocol : ℕ)
    → IsOpened k (open_raw_socket iface protocol k)
      × IsOpened k (open_icmp_socket family k)
      × IsOpened k (open_ip_raw_socket family protocol k)
unfolding open_raw_socket open_icmp_socket open_ip_raw_socket raw_opened icmp_opened ip_opened
    dgram_opened
open_sockets-IsOpened k iface family protocol = (
  from_open _ (raw_opened iface protocol) k (λ k₁ s. s) (λ fd k₁. index_lem iface fd protocol k₁),
  from_open _ (icmp_opened family _) k
      (λ k₁ s.
        shifted k k₁ _ s (from_open _ dgram_opened k₁ (λ k₂ r. r) (λ fd k₂. wrap_lem fd 0 true k₂)))
      (λ fd k₁. wrap_lem fd 0 false k₁),
  from_open _ ip_opened k (λ k₁ s. s) (λ fd k₁. wrap_lem fd 0 false k₁),
)
