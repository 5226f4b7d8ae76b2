-- ===== src/Setups.antt =====
-- What the set-ups of the tools' sockets hold, all together.
use knetutils.Base.{ℕ}
use knetutils.Base.{Option, List}
use knetutils.Base.{Text}
use knetutils.Base.{Family}
use knetutils.Net.Kernel.{Kernel}
use knetutils.Net.Held.{IsHeldBy, close_one}
use knetutils.Ping.State.{Config as PingConfig}
use knetutils.Tcping.State.{Config as TcpingConfig}
use knetutils.Arping.Options.{Config as ArpingConfig}
use knetutils.Traceroute.Probe.{Config as TracerouteConfig}
use knetutils.Pscan.State.{Config as PscanConfig}
use knetutils.Sniff.Options.{Config as SniffConfig}
use knetutils.Ping.Setup.{setup_ping_socket, setup_ping-IsHeldBy}
use knetutils.Tcping.Setup.{setup_tcping_socket, setup_tcping-IsHeldBy}
use knetutils.Arping.Setup.{setup_arping_socket, setup_arping-IsHeldBy}
use knetutils.Traceroute.Setup.{
  setup_traceroute_sockets, close_sockets as close_traceroute, setup_traceroute-IsHeldBy,
}
use knetutils.Pscan.Setup.{open_sockets, close_sockets as close_pscan, open_sockets-IsHeldBy}
use knetutils.Sniff.Setup.{open_capture, close_capture, open_capture-IsHeldBy}

-- In each of the six tools, whatever the kernel answers, a set-up of the sockets (and of the file of sniff)
-- that does not end the process holds exactly the descriptors and the memory that the tool's closing at
-- the end of its run hands back.
pub set_ups-AreHeld :
    (inet_pton : Family → Text → Option (List ℕ)) (k : Kernel) (iface : Text) (p : PingConfig)
    (t : TcpingConfig) (a : ArpingConfig) (r : TracerouteConfig) (s : PscanConfig) (c : SniffConfig)
    → IsHeldBy close_one k (setup_ping_socket inet_pton p k)
      × IsHeldBy close_one k (setup_tcping_socket inet_pton t k)
      × IsHeldBy close_one k (setup_arping_socket a iface k)
      × IsHeldBy close_traceroute k (setup_traceroute_sockets inet_pton r k)
      × IsHeldBy close_pscan k (open_sockets s k)
      × IsHeldBy close_capture k (open_capture c iface k)
set_ups-AreHeld inet_pton k iface p t a r s c = (
  setup_ping-IsHeldBy inet_pton p k,
  setup_tcping-IsHeldBy inet_pton t k,
  setup_arping-IsHeldBy a iface k,
  setup_traceroute-IsHeldBy inet_pton r k,
  open_sockets-IsHeldBy s k,
  open_capture-IsHeldBy c iface k,
)
