-- ===== src/Arping/Setup.antt =====
-- The socket of src/arping.c. `none` stands for the failure that ends `arping_run`; ETH_P_ARP is 0x0806.
use knetutils.Base.{refl, inl, inr}
use knetutils.Base.{Bool, true, Option}
use knetutils.Base.{if◌then◌else◌, Bool-cases}
use knetutils.Base.{Text}
use knetutils.Base.{unspec}
use knetutils.Net.Kernel.{Kernel, M, ◌>>=◌, pure, Keeps}
use knetutils.Net.Sockets.{NetSocket, open_raw_socket, set_promiscuous}
use knetutils.Net.Balance.{open_sockets-IsOpened}
use knetutils.Net.Bind.{Keeps-succeeds}
use knetutils.Net.Held.{IsHeldBy, checked, close_one, checked-IsHeldBy}
use knetutils.Arping.Options.{Config}

-- The warning when it fails is left out.
unfoldable pub listen_to_all : Config → NetSocket → M Bool
listen_to_all config sock =
    if config.dad then (set_promiscuous sock >>= λ fine. pure true) else pure true

-- `iface` is `config->iface`.
unfoldable pub setup_arping_socket : Config → Text → M (Option NetSocket)
setup_arping_socket config iface = open_raw_socket iface 0x0806 >>= checked (listen_to_all config)

listen-Keeps : (config : Config) (sock : NetSocket) → Keeps (listen_to_all config sock)
unfolding listen_to_all set_promiscuous
listen-Keeps config sock k = elim (Bool-cases config.dad) [
  | inl e ↦
      let s = Keeps-succeeds _ k in
      rw e (record { same_opened = s.same_opened; same_blocks = s.same_blocks })
  | inr e ↦ rw e (record { same_opened = refl; same_blocks = refl })
]

pub setup_arping-IsHeldBy :
    (config : Config) (iface : Text) (k : Kernel)
    → IsHeldBy close_one k (setup_arping_socket config iface k)
unfolding setup_arping_socket
setup_arping-IsHeldBy config iface k =
    checked-IsHeldBy (open_raw_socket iface 0x0806) (listen_to_all config) k
      (open_sockets-IsOpened k iface unspec 0x0806).0 (listen-Keeps config)
