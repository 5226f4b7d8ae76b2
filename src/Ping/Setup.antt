-- ===== src/Ping/Setup.antt =====
-- The socket of src/ping.c and its options. `none` stands for `die`.
use knetutils.Base.{ℕ}
use knetutils.Base.{refl, ◌∙◌, inl, inr}
use knetutils.Base.{Bool, true, false, Option, List, []}
use knetutils.Base.{ltb, if◌then◌else◌, Bool-cases}
use knetutils.Base.{le32_bytes}
use knetutils.Base.{Text}
use knetutils.Base.{Family, is_inet6}
use knetutils.Net.Kernel.{Call, setsockopt, Kernel, M, ◌>>=◌, ◌>>◌, pure, call, Keeps}
use knetutils.Net.Sockets.{NetSocket, open_icmp_socket}
use knetutils.Net.Balance.{open_sockets-IsOpened}
use knetutils.Net.Bind.{bind_to, bind_to-Keeps}
use knetutils.Net.Held.{IsHeldBy, checked, close_one, checked-IsHeldBy}
use knetutils.Ping.State.{Config}

-- A call whose result is not looked at.
abbrev try : Call → M (Unit {0})
try c = call c >>= λ r. pure tt

-- The options of IPv6 have the level 41.
abbrev ip_level : Config → ℕ
ip_level config = if is_inet6 config.family then 41 else 0

unfoldable pub set_ttl : Config → ℕ → M (Unit {0})
unfolding call
set_ttl config fd =
    if ltb 0 config.ttl
    then try (
        setsockopt fd (ip_level config) (if is_inet6 config.family then 16 else 2)
          (le32_bytes config.ttl))
    else pure tt

unfoldable pub set_tos : Config → ℕ → M (Unit {0})
unfolding call
set_tos config fd =
    if config.has_tos
    then try (
        setsockopt fd (ip_level config) (if is_inet6 config.family then 67 else 1)
          (le32_bytes config.tos))
    else pure tt

-- What follows the choice of `-I`.
unfoldable pub set_options : Config → ℕ → Bool → M Bool
unfolding set_ttl set_tos
set_options config fd false = pure false
set_options config fd true = do set_ttl config fd; set_tos config fd; pure true

module _ (inet_pton : Family → Text → Option (List ℕ)) where
  unfoldable pub setup_socket_options : Config → NetSocket → M Bool
  unfolding set_options
  setup_socket_options config sock =
      bind_to inet_pton sock.fd config.bind_iface >>= set_options config sock.fd

  -- The opening in `ping_run`, and the options.
  unfoldable pub setup_ping_socket : Config → M (Option NetSocket)
  setup_ping_socket config =
      open_icmp_socket config.family >>= checked (setup_socket_options config)

ttl-Keeps : (config : Config) (fd : ℕ) → Keeps (set_ttl config fd)
unfolding set_ttl call
ttl-Keeps config fd k = elim (Bool-cases (ltb 0 config.ttl)) [
  | inl e ↦ rw e (record { same_opened = refl; same_blocks = refl })
  | inr e ↦ rw e (record { same_opened = refl; same_blocks = refl })
]

tos-Keeps : (config : Config) (fd : ℕ) → Keeps (set_tos config fd)
unfolding set_tos call
tos-Keeps config fd k = elim (Bool-cases config.has_tos) [
  | inl e ↦ rw e (record { same_opened = refl; same_blocks = refl })
  | inr e ↦ rw e (record { same_opened = refl; same_blocks = refl })
]

options-Keeps : (config : Config) (fd : ℕ) (fine : Bool) → Keeps (set_options config fd fine)
unfolding set_options
options-Keeps config fd false k = record { same_opened = refl; same_blocks = refl }
options-Keeps config fd true k =
    let s = ttl-Keeps config fd k in
    let r = tos-Keeps config fd (set_ttl config fd k).1 in
    record {
      same_opened = r.same_opened ∙ s.same_opened;
      same_blocks = r.same_blocks ∙ s.same_blocks;
    }

module _ (inet_pton : Family → Text → Option (List ℕ)) where
  setup-Keeps :
      (config : Config) (sock : NetSocket) → Keeps (setup_socket_options inet_pton config sock)
  unfolding setup_socket_options
  setup-Keeps config sock k =
      let s = bind_to-Keeps inet_pton sock.fd config.bind_iface k in
      let (fine, k₁) = bind_to inet_pton sock.fd config.bind_iface k in
      let r = options-Keeps config sock.fd fine k₁ in
      record {
        same_opened = r.same_opened ∙ s.same_opened;
        same_blocks = r.same_blocks ∙ s.same_blocks;
      }

  pub setup_ping-IsHeldBy :
      (config : Config) (k : Kernel) → IsHeldBy close_one k (setup_ping_socket inet_pton config k)
  unfolding setup_ping_socket
  setup_ping-IsHeldBy config k =
      checked-IsHeldBy (open_icmp_socket config.family) (setup_socket_options inet_pton config) k
        (open_sockets-IsOpened k [] config.family 0).1 (setup-Keeps config)
