-- ===== src/Tcping/Setup.antt =====
-- The socket of src/tcping.c. `none` stands for `die`.
use knetutils.Base.{ℕ}
use knetutils.Base.{Option, List, []}
use knetutils.Base.{Text}
use knetutils.Base.{Family}
use knetutils.Net.Kernel.{Kernel, M, ◌>>=◌}
use knetutils.Net.Sockets.{NetSocket, open_ip_raw_socket}
use knetutils.Net.Balance.{open_sockets-IsOpened}
use knetutils.Net.Bind.{bind_to, bind_to-Keeps}
use knetutils.Net.Held.{IsHeldBy, checked, close_one, checked-IsHeldBy}
use knetutils.Tcping.State.{Config}

module _ (inet_pton : Family → Text → Option (List ℕ)) where
  unfoldable pub setup_tcping_socket : Config → M (Option NetSocket)
  setup_tcping_socket config =
      open_ip_raw_socket config.family 6
      >>= checked (λ sock. bind_to inet_pton sock.fd config.bind_iface)

  pub setup_tcping-IsHeldBy :
      (config : Config) (k : Kernel) → IsHeldBy close_one k (setup_tcping_socket config k)
  unfolding setup_tcping_socket
  setup_tcping-IsHeldBy config k =
      checked-IsHeldBy (open_ip_raw_socket config.family 6)
        (λ sock. bind_to inet_pton sock.fd config.bind_iface) k
        (open_sockets-IsOpened k [] config.family 6).2
        (λ sock. bind_to-Keeps inet_pton sock.fd config.bind_iface)
