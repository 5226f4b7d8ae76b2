-- ===== src/Traceroute/Hops.antt =====
-- How many hops `traceroute_run` goes.
use knetutils.Base.{ℕ, zero, suc, ◌+◌, ◌-◌, ◌≤◌, ◌<◌}
use knetutils.Base.{◌≡◌, refl, ap, ◌∙◌, inl, inr, arith}
use knetutils.Base.{true, false, none, some, List, [], ◌∷◌}
use knetutils.Base.{Option-cases}
use knetutils.Base.{length}
use knetutils.Base.{u8}
use knetutils.Traceroute.Probe.{Config, State, send_traceroute_probe}
use knetutils.Traceroute.Run.{
  Tick, Hop, Sending, Waiting, send_one, send_probes, wait_round, wait_loop, run_hop,
  traceroute_loop,
}

-- With a hop limit below 255 the loop ends: it does at most the hops from `ttl` to the limit.
pub traceroute_loop-le :
    (config : Config) (st : State) (ttl : ℕ) (hops : List Hop)
    → config.max_ttl < 255
    → ttl < 256
    → length (traceroute_loop config st ttl hops) ≤ config.max_ttl + 1 - ttl
unfolding traceroute_loop
traceroute_loop-le config st ttl [] h b = omega arith
traceroute_loop-le config st ttl (hop ∷ hops) h b =
    ground (arith, traceroute_loop-le config (run_hop config st ttl hop).0 (u8 (ttl + 1)) hops h)

abbrev IsSilent : List Tick → Type 0
IsSilent [] = Unit
IsSilent (tick ∷ ticks) = (tick.packet ≡ none) × IsSilent ticks

-- Nothing stops the hop from outside, and no packet comes.
abbrev pub AllSilent : List Hop → Type 0
AllSilent [] = Unit
AllSilent (hop ∷ hops) = (hop.running ≡ true) × IsSilent (hop.ticks) × AllSilent hops

reached-wait_round :
    (config : Config) (st : State) (base ttl until : ℕ) (tick : Tick) (w w' : Waiting)
    → tick.packet ≡ none
    → wait_round config st base ttl until tick w ≡ some w'
    → w' ≡ w
unfolding wait_round
reached-wait_round config st base ttl until tick w w' h e = ground arith

reached-wait_loop :
    (config : Config) (st : State) (base ttl until : ℕ) (ticks : List Tick) (w : Waiting)
    → IsSilent ticks
    → (wait_loop config st base ttl until ticks w).target_reached ≡ w.target_reached
unfolding wait_loop
reached-wait_loop config st base ttl until [] w h = refl
reached-wait_loop config st base ttl until (tick ∷ ticks) w h =
    elim (Option-cases (wait_round config st base ttl until tick w)) [
      | inl e ↦ rw (e, wait_loop) refl
      | inr (w', e) ↦
          rw (e, wait_loop)
            (reached-wait_loop config st base ttl until ticks w' h.1
              ∙ ap (λ (x : Waiting). x.target_reached)
                  (reached-wait_round config st base ttl until tick w w' h.0 e))
    ]

reached-send_one :
    (config : Config) (ttl : ℕ) (hop : Hop) (probe : ℕ) (s : Sending)
    → (send_one config ttl hop probe s).state.target_reached ≡ s.state.target_reached
unfolding send_one send_traceroute_probe
reached-send_one config ttl hop probe s = ground arith

reached-send_probes :
    (config : Config) (ttl : ℕ) (hop : Hop) (left probe : ℕ) (s : Sending)
    → (send_probes config ttl hop left probe s).state.target_reached ≡ s.state.target_reached
unfolding send_probes
reached-send_probes config ttl hop zero probe s = refl
reached-send_probes config ttl hop (suc left) probe s = ground (
  arith,
  reached-send_probes config ttl hop left (probe + 1) (send_one config ttl hop probe s),
  reached-send_one config ttl hop probe s,
)

reached-run_hop :
    (config : Config) (st : State) (ttl : ℕ) (hop : Hop)
    → IsSilent (hop.ticks)
    → (run_hop config st ttl hop).0.target_reached ≡ st.target_reached
unfolding run_hop
reached-run_hop config st ttl hop h =
    reached-wait_loop config _ st.seq ttl _ hop.ticks _ h
    ∙ reached-send_probes config ttl hop config.queries 0 _

-- With `max_ttl` 255 a target that never answers is probed for ever: the u_char `ttl` never exceeds
-- the limit, so the loop goes through every hop that the environment has, however many.
pub traceroute_loop_endless :
    (config : Config) (st : State) (ttl : ℕ) (hops : List Hop)
    → config.max_ttl ≡ 255
    → ttl < 256
    → st.target_reached ≡ false
    → AllSilent hops
    → length (traceroute_loop config st ttl hops) ≡ length hops
unfolding traceroute_loop
traceroute_loop_endless config st ttl [] e b r h = refl
traceroute_loop_endless config st ttl (hop ∷ hops) e b r h = ground (
  arith,
  reached-run_hop config st ttl hop h.1,
  traceroute_loop_endless config (run_hop config st ttl hop).0 (u8 (ttl + 1)) hops e,
)
