-- ===== src/Traceroute/Setup.antt =====
-- The sockets of src/traceroute.c, and their closing at the end of `traceroute_run`. `none` stands for
-- `die`, and a missing UDP socket for the descriptor -1.
use knetutils.Base.{ℕ, suc}
use knetutils.Base.{◌≡◌, ap, ◌∙◌, inl, inr, arith}
use knetutils.Base.{Bool, true, false, Option, none, some, List, [], ◌∷◌, ◌++◌}
use knetutils.Base.{if◌then◌else◌, Bool-cases}
use knetutils.Base.{Text}
use knetutils.Base.{Family}
use knetutils.Net.Kernel.{
  Call, socket, Reply, Kernel, M, ◌>>=◌, ◌>>◌, pure, call, open_fd, hold_fd, close_fd, remove,
}
use knetutils.Net.Sockets.{NetSocket, domain, open_icmp_socket, close_raw_socket}
use knetutils.Net.Balance.{IsOpened, open_sockets-IsOpened}
use knetutils.Net.Bind.{bind_to, bind_to-Keeps}
use knetutils.Net.Held.{IsHeldBy, answer_with, close_one_lem}
use knetutils.Traceroute.Probe.{Config}

-- `sock` and `udp_sock`.
pub record Sockets : Type 0 where
  pub sock : NetSocket
  pub udp_sock : Option ℕ

module _ (inet_pton : Family → Text → Option (List ℕ)) where
  unfoldable pub bind_sockets : Config → Sockets → M (Option Sockets)
  bind_sockets config s = bind_to inet_pton s.sock.fd config.bind_iface >>= answer_with s

  unfoldable pub udp_opened : Config → NetSocket → Option ℕ → M (Option Sockets)
  unfolding bind_sockets
  udp_opened config sock none = pure none
  udp_opened config sock (some fd) =
      bind_sockets config (record { sock = sock; udp_sock = some fd })

  unfoldable pub icmp_opened : Config → Option NetSocket → M (Option Sockets)
  unfolding udp_opened bind_sockets
  icmp_opened config none = pure none
  icmp_opened config (some sock) =
      if config.use_udp
      then (open_fd (socket (domain config.family) 2 17) >>= udp_opened config sock)
      else bind_sockets config (record { sock = sock; udp_sock = none })

  unfoldable pub setup_traceroute_sockets : Config → M (Option Sockets)
  setup_traceroute_sockets config = open_icmp_socket config.family >>= icmp_opened config

abbrev pub close_udp : Option ℕ → M (Unit {0})
close_udp none = pure tt
close_udp (some fd) = close_fd fd

unfoldable pub close_sockets : Sockets → M (Unit {0})
unfolding close_fd
close_sockets s = do close_udp s.udp_sock; close_raw_socket (some (s.sock))

abbrev HeldOne : Kernel → NetSocket → Kernel → Type 0
HeldOne k sock k' = (k'.opened ≡ sock.fd ∷ k.opened) × (k'.blocks ≡ suc k.blocks)

module _ (inet_pton : Family → Text → Option (List ℕ)) (config : Config) (k : Kernel) where
  bound_one :
      (sock : NetSocket) (fine : Bool) (k' : Kernel)
      → HeldOne k sock k'
      → IsHeldBy close_sockets k (answer_with (record { sock = sock; udp_sock = none }) fine k')
  unfolding close_sockets
  bound_one sock true k' h = close_one_lem sock k k' h.0 h.1
  bound_one sock false k' h = tt

  bound_two :
      (sock : NetSocket) (fd : ℕ) (fine : Bool) (k' : Kernel)
      → k'.opened ≡ fd ∷ sock.fd ∷ k.opened
      → k'.blocks ≡ suc k.blocks
      → IsHeldBy close_sockets k (answer_with (record { sock = sock; udp_sock = some fd }) fine k')
  unfolding close_sockets close_fd
  bound_two sock fd true k' eo eb =
      close_one_lem sock k (close_fd fd k').1 (ap (remove fd) eo ∙ ground arith) eb
  bound_two sock fd false k' eo eb = tt

  from_udp :
      (sock : NetSocket) (k' : Kernel) (r : Option Reply)
      → HeldOne k sock k'
      → IsHeldBy close_sockets k ((hold_fd r >>= udp_opened inet_pton config sock) k')
  unfolding udp_opened bind_sockets
  from_udp sock k' none h = tt
  from_udp sock k' (some (fd, bytes)) h =
      let s = bind_to-Keeps inet_pton sock.fd config.bind_iface (hold_fd (some (fd, bytes)) k').1 in
      bound_two sock fd _ _ (s.same_opened ∙ ap (λ l. fd ∷ l) h.0) (s.same_blocks ∙ h.1)

  from_icmp :
      (out : Option NetSocket × Kernel)
      → IsOpened k out
      → IsHeldBy close_sockets k (icmp_opened inet_pton config out.0 out.1)
  unfolding icmp_opened bind_sockets open_fd call
  from_icmp (none, k') o = tt
  from_icmp (some sock, k') o = elim (Bool-cases config.use_udp) [
    | inl e ↦
        let c : Call = socket (domain config.family) 2 17 in
        rw e
          (from_udp sock (record k' { log = k'.log ++ (c ∷ []) }) (k'.answer k'.log c) (o.0, o.1))
    | inr e ↦
        let s = bind_to-Keeps inet_pton sock.fd config.bind_iface k' in
        rw e (bound_one sock _ _ (s.same_opened ∙ o.0, s.same_blocks ∙ o.1))
  ]

  pub setup_traceroute-IsHeldBy :
      IsHeldBy close_sockets k (setup_traceroute_sockets inet_pton config k)
  unfolding setup_traceroute_sockets
  setup_traceroute-IsHeldBy =
      from_icmp (open_icmp_socket config.family k) (open_sockets-IsOpened k [] config.family 0).1
