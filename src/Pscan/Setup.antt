-- ===== src/Pscan/Setup.antt =====
-- The sockets of `pscan_run` of src/pscan.c, and their closing at its end. `none` stands for `die`, and a
-- missing socket for sending for the descriptor -1.
use knetutils.Base.{ℕ, suc}
use knetutils.Base.{◌≡◌, refl, ap, ◌∙◌, inl, inr, arith}
use knetutils.Base.{Bool, true, false, Option, none, some, [], ◌∷◌, ◌++◌}
use knetutils.Base.{if◌then◌else◌, Bool-cases}
use knetutils.Base.{Text}
use knetutils.Net.Kernel.{
  Call, socket, setsockopt, Reply, Kernel, M, ◌>>=◌, ◌>>◌, pure, call, open_fd, hold_fd, close_fd,
  remove, free, Keeps,
}
use knetutils.Net.Sockets.{
  NetSocket, domain, open_icmp_socket, open_ip_raw_socket, close_raw_socket, is_dgram,
}
use knetutils.Net.Balance.{IsOpened, open_sockets-IsOpened}
use knetutils.Net.Bind.{bind_device, Keeps-succeeds}
use knetutils.Net.Held.{IsHeldBy, answer_with, close_one_lem, remove_second}
use knetutils.Pscan.State.{Config}

-- `sock` and `send_fd`.
pub record Sockets : Type 0 where
  pub sock : NetSocket
  pub send_fd : Option ℕ

-- SO_BINDTODEVICE on the socket for sending, if there is one.
unfoldable pub bind_sender : Text → Option ℕ → M Bool
unfolding bind_device
bind_sender iface none = pure true
bind_sender iface (some fd) = bind_device fd iface

unfoldable pub bind_rest : Text → Option ℕ → Bool → M Bool
unfolding bind_sender
bind_rest iface send_fd false = pure false
bind_rest iface send_fd true = bind_sender iface send_fd

unfoldable pub bind_both : Option Text → Sockets → M Bool
unfolding bind_rest bind_device
bind_both none s = pure true
bind_both (some iface) s = bind_device s.sock.fd iface >>= bind_rest iface s.send_fd

unfoldable pub bind_sockets : Config → Sockets → M (Option Sockets)
unfolding bind_both
bind_sockets config s = bind_both config.bind_iface s >>= answer_with s

unfoldable pub sender_opened : Config → NetSocket → Option ℕ → M (Option Sockets)
unfolding bind_sockets
sender_opened config sock none = pure none
sender_opened config sock (some fd) =
    bind_sockets config (record { sock = sock; send_fd = some fd })

-- A UDP scan wants a raw ICMP socket.
unfoldable pub icmp_opened : Config → Option NetSocket → M (Option Sockets)
unfolding sender_opened
icmp_opened config none = pure none
icmp_opened config (some sock) =
    if is_dgram (some sock)
    then pure none
    else (open_fd (socket (domain config.target_family) 2 0) >>= sender_opened config sock)

unfoldable pub tcp_opened : Config → Option NetSocket → M (Option Sockets)
unfolding bind_sockets
tcp_opened config none = pure none
tcp_opened config (some sock) = bind_sockets config (record { sock = sock; send_fd = none })

unfoldable pub open_sockets : Config → M (Option Sockets)
unfolding icmp_opened tcp_opened
open_sockets config =
    if config.udp
    then (open_icmp_socket config.target_family >>= icmp_opened config)
    else (open_ip_raw_socket config.target_family 6 >>= tcp_opened config)

abbrev pub close_sender : Option ℕ → M (Unit {0})
close_sender none = pure tt
close_sender (some fd) = close_fd fd

unfoldable pub close_sockets : Sockets → M (Unit {0})
unfolding close_fd close_raw_socket free
close_sockets s = do close_raw_socket (some (s.sock)); close_sender s.send_fd

sender-Keeps : (iface : Text) (send_fd : Option ℕ) → Keeps (bind_sender iface send_fd)
unfolding bind_sender bind_device
sender-Keeps iface none k = record { same_opened = refl; same_blocks = refl }
sender-Keeps iface (some fd) k = Keeps-succeeds (setsockopt fd 1 25 iface) k

rest-Keeps :
    (iface : Text) (send_fd : Option ℕ) (fine : Bool) → Keeps (bind_rest iface send_fd fine)
unfolding bind_rest
rest-Keeps iface send_fd false k = record { same_opened = refl; same_blocks = refl }
rest-Keeps iface send_fd true k = sender-Keeps iface send_fd k

both-Keeps : (bind_iface : Option Text) (s : Sockets) → Keeps (bind_both bind_iface s)
unfolding bind_both bind_device
both-Keeps none s k = record { same_opened = refl; same_blocks = refl }
both-Keeps (some iface) s k =
    let (fine, k₁) = bind_device s.sock.fd iface k in
    let p = Keeps-succeeds (setsockopt s.sock.fd 1 25 iface) k in
    let r = rest-Keeps iface s.send_fd fine k₁ in
    record {
      same_opened = r.same_opened ∙ p.same_opened;
      same_blocks = r.same_blocks ∙ p.same_blocks;
    }

module _ (config : Config) (k : Kernel) where
  bound_one :
      (sock : NetSocket) (fine : Bool) (k' : Kernel)
      → k'.opened ≡ sock.fd ∷ k.opened
      → k'.blocks ≡ suc k.blocks
      → IsHeldBy close_sockets k (answer_with (record { sock = sock; send_fd = none }) fine k')
  unfolding close_sockets
  bound_one sock true k' eo eb = close_one_lem sock k k' eo eb
  bound_one sock false k' eo eb = tt

  bound_two :
      (sock : NetSocket) (fd : ℕ) (fine : Bool) (k' : Kernel)
      → k'.opened ≡ fd ∷ sock.fd ∷ k.opened
      → k'.blocks ≡ suc k.blocks
      → IsHeldBy close_sockets k (answer_with (record { sock = sock; send_fd = some fd }) fine k')
  unfolding close_sockets
  bound_two sock fd true k' eo eb = record {
    same_opened =
        ap (λ l. remove fd (remove sock.fd l)) eo
        ∙ ap (remove fd) (remove_second fd sock.fd k.opened)
        ∙ ground arith;
    same_blocks = omega arith;
  }
  bound_two sock fd false k' eo eb = tt

  from_sender :
      (sock : NetSocket) (k' : Kernel) (r : Option Reply)
      → k'.opened ≡ sock.fd ∷ k.opened
      → k'.blocks ≡ suc k.blocks
      → IsHeldBy close_sockets k ((hold_fd r >>= sender_opened config sock) k')
  unfolding sender_opened bind_sockets
  from_sender sock k' none eo eb = tt
  from_sender sock k' (some (fd, bytes)) eo eb =
      let s =
        both-Keeps config.bind_iface (record { sock = sock; send_fd = some fd })
          (hold_fd (some (fd, bytes)) k').1 in
      bound_two sock fd _ _ (s.same_opened ∙ ap (λ l. fd ∷ l) eo) (s.same_blocks ∙ eb)

  from_icmp :
      (out : Option NetSocket × Kernel)
      → IsOpened k out
      → IsHeldBy close_sockets k (icmp_opened config out.0 out.1)
  unfolding icmp_opened open_fd call
  from_icmp (none, k') o = tt
  from_icmp (some sock, k') o = elim (Bool-cases (is_dgram (some sock))) [
    | inl e ↦ rw e tt
    | inr e ↦
        let c : Call = socket (domain config.target_family) 2 0 in
        rw e
          (from_sender sock (record k' { log = k'.log ++ (c ∷ []) }) (k'.answer k'.log c) o.0 o.1)
  ]

  from_tcp :
      (out : Option NetSocket × Kernel)
      → IsOpened k out
      → IsHeldBy close_sockets k (tcp_opened config out.0 out.1)
  unfolding tcp_opened bind_sockets
  from_tcp (none, k') o = tt
  from_tcp (some sock, k') o =
      let s = both-Keeps config.bind_iface (record { sock = sock; send_fd = none }) k' in
      bound_one sock _ _ (s.same_opened ∙ o.0) (s.same_blocks ∙ o.1)

  pub open_sockets-IsHeldBy : IsHeldBy close_sockets k (open_sockets config k)
  unfolding open_sockets
  open_sockets-IsHeldBy =
      let opened = open_sockets-IsOpened k [] config.target_family 6 in
      elim (Bool-cases config.udp) [
        | inl e ↦ rw e (from_icmp (open_icmp_socket config.target_family k) opened.1)
        | inr e ↦ rw e (from_tcp (open_ip_raw_socket config.target_family 6 k) opened.2)
      ]
