-- ===== src/Net/Bind.antt =====
-- The choice that ping.c, traceroute.c and tcping.c make in the same words for the option `-I`: an
-- address to bind to, or an interface. `inet_pton` is that of the C library, for a family.
use knetutils.Base.{ℕ}
use knetutils.Base.{refl}
use knetutils.Base.{Bool, true, false, Option, none, some, List, [], ◌∷◌, ◌++◌}
use knetutils.Base.{replicate}
use knetutils.Base.{le16_bytes}
use knetutils.Base.{Text}
use knetutils.Base.{Family, inet, inet6}
use knetutils.Net.Kernel.{
  Call, bind, setsockopt, Reply, Kernel, M, pure, call, SameResources, Keeps,
}
use knetutils.Net.Sockets.{succeeds}

-- `struct sockaddr_in` and `struct sockaddr_in6` with an address and no port.
abbrev pub sockaddr_in : List ℕ → List ℕ
sockaddr_in addr = le16_bytes 2 ++ (0 ∷ 0 ∷ (addr ++ replicate 8 0))

abbrev pub sockaddr_in6 : List ℕ → List ℕ
sockaddr_in6 addr = le16_bytes 10 ++ (replicate 6 0 ++ (addr ++ replicate 4 0))

-- SO_BINDTODEVICE is 25, SOL_SOCKET is 1.
unfoldable pub bind_device : ℕ → Text → M Bool
unfolding call
bind_device fd iface = succeeds (setsockopt fd 1 25 iface)

pub Keeps-succeeds : (c : Call) → Keeps (succeeds c)
unfolding call
Keeps-succeeds c k = behind (k.answer k.log c)
  where
    k₁ : Kernel
    k₁ = record k { log = k.log ++ (c ∷ []) }

    behind :
        (r : Option Reply)
        → SameResources k
            ((elim r as (λ _. M Bool) [ none ↦ pure false | some v ↦ pure true ]) k₁).1
    behind none = record { same_opened = refl; same_blocks = refl }
    behind (some v) = record { same_opened = refl; same_blocks = refl }

module _ (inet_pton : Family → Text → Option (List ℕ)) where
  unfoldable pub bind_six : ℕ → Text → Option (List ℕ) → M Bool
  unfolding bind_device call
  bind_six fd iface none = bind_device fd iface
  bind_six fd iface (some addr) = succeeds (bind fd (sockaddr_in6 addr))

  unfoldable pub bind_four : ℕ → Text → Option (List ℕ) → M Bool
  unfolding bind_six call
  bind_four fd iface none = bind_six fd iface (inet_pton inet6 iface)
  bind_four fd iface (some addr) = succeeds (bind fd (sockaddr_in addr))

  -- `false` stands for `die`.
  unfoldable pub bind_to : ℕ → Option Text → M Bool
  unfolding bind_four
  bind_to fd none = pure true
  bind_to fd (some iface) = bind_four fd iface (inet_pton inet iface)

  bind_six-Keeps : (fd : ℕ) (iface : Text) (r : Option (List ℕ)) → Keeps (bind_six fd iface r)
  unfolding bind_six bind_device
  bind_six-Keeps fd iface none = Keeps-succeeds (setsockopt fd 1 25 iface)
  bind_six-Keeps fd iface (some addr) = Keeps-succeeds (bind fd (sockaddr_in6 addr))

  bind_four-Keeps : (fd : ℕ) (iface : Text) (r : Option (List ℕ)) → Keeps (bind_four fd iface r)
  unfolding bind_four
  bind_four-Keeps fd iface none = bind_six-Keeps fd iface (inet_pton inet6 iface)
  bind_four-Keeps fd iface (some addr) = Keeps-succeeds (bind fd (sockaddr_in addr))

  pub bind_to-Keeps : (fd : ℕ) (bind_iface : Option Text) → Keeps (bind_to fd bind_iface)
  unfolding bind_to
  bind_to-Keeps fd none k = record { same_opened = refl; same_blocks = refl }
  bind_to-Keeps fd (some iface) k = bind_four-Keeps fd iface (inet_pton inet iface) k
