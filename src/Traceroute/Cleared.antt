-- ===== src/Traceroute/Cleared.antt =====
-- That a hop of src/traceroute.c begins without the address printed last, and does not depend on it.
use knetutils.Base.{ℕ, zero, suc, ◌+◌}
use knetutils.Base.{◌≡◌, refl, ◌∙◌, inl, inr, arith}
use knetutils.Base.{List, [], ◌∷◌}
use knetutils.Base.{Bool-cases, replicate}
use knetutils.Traceroute.Probe.{Config, State, send_traceroute_probe}
use knetutils.Traceroute.Run.{Hop, Sending, send_one, send_probes, run_hop, traceroute_loop}

last_hop_addr-send_one :
    (config : Config) (ttl : ℕ) (hop : Hop) (probe : ℕ) (s : Sending)
    → (send_one config ttl hop probe s).state.last_hop_addr ≡ s.state.last_hop_addr
unfolding send_one send_traceroute_probe
last_hop_addr-send_one config ttl hop probe s = ground arith

last_hop_addr-send_probes :
    (config : Config) (ttl : ℕ) (hop : Hop) (left probe : ℕ) (s : Sending)
    → (send_probes config ttl hop left probe s).state.last_hop_addr ≡ s.state.last_hop_addr
unfolding send_probes
last_hop_addr-send_probes config ttl hop zero probe s = refl
last_hop_addr-send_probes config ttl hop (suc left) probe s =
    let rest =
      last_hop_addr-send_probes config ttl hop left (probe + 1) (send_one config ttl hop probe s)
      ∙ last_hop_addr-send_one config ttl hop probe s in
    elim (Bool-cases (hop.send_running probe)) [
      | inl e ↦ rw (send_probes, e) rest
      | inr e ↦ rw (send_probes, e) refl
    ]

pub last_hop_addr-run_hop :
    (config : Config) (st : State) (ttl : ℕ) (hop : Hop)
    → (run_hop config st ttl hop).0.last_hop_addr ≡ replicate 128 0
unfolding run_hop
last_hop_addr-run_hop config st ttl hop =
    last_hop_addr-send_probes config ttl hop config.queries 0 _

-- The hops do not depend on the address printed before.
pub traceroute_loop-forgets :
    (config : Config) (st : State) (last : List ℕ) (ttl : ℕ) (hops : List Hop)
    → traceroute_loop config (record st { last_hop_addr = last }) ttl hops
      ≡ traceroute_loop config st ttl hops
unfolding traceroute_loop run_hop
traceroute_loop-forgets config st last ttl [] = refl
traceroute_loop-forgets config st last ttl (hop ∷ hops) = refl
