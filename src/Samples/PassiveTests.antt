-- ===== src/Samples/PassiveTests.antt =====
-- The evaluation of the splitter of the sample network.
use unoc_network_simulator.Prelude.{
  ℕ, ◌≡◌, refl, ◌↔◌, ◌⊎◌, Bool, true, false, some, ◌++◌, ltb, length, ◌==◌,
}
use unoc_network_simulator.Prelude.Sets.{contains}
use unoc_network_simulator.Model.{Status, up, is_passive_inline}
use unoc_network_simulator.Evaluation.Passive.{
  is_upstream, is_terminator, neighbors, eval_passive_status, chain_has_upstream, has_terminator,
  adjacent, ends_of, passive_next, finds_upstream, finds_terminator,
}
use unoc_network_simulator.Search.Sweep.{edges}
use unoc_network_simulator.Search.Sweep.Seek.{seek}
use unoc_network_simulator.Evaluation.PassiveSearch.{near_upstream}
use unoc_network_simulator.Evaluation.PassiveUp.{
  Near, near_terminator, around, eval_passive_status_iff,
}
use unoc_network_simulator.Samples.Network.{network}

-- The OLT, device 3, has a way to the gateway.
abbrev connected : ℕ → Bool
connected i = i == 3

splitter_is_up : eval_passive_status network connected 4 ≡ some up
unfolding eval_passive_status neighbors adjacent ends_of chain_has_upstream has_terminator
    passive_next finds_upstream finds_terminator seek edges
splitter_is_up = refl

eval_passive_status_iff_example :
    (s : Status) × (eval_passive_status network connected 4 ≡ some s)
    × ((s ≡ up) ↔ (
        (ltb (length (neighbors network 4)) 2 ≡ false)
        × Near network
            (around network connected 4 is_upstream ++ around network connected 4 is_passive_inline)
            (near_upstream network connected (around network connected 4 is_upstream))
        × (((x : ℕ) × (contains x (around network connected 4 is_terminator) ≡ true))
            ⊎ Near network
                (around network connected 4 is_passive_inline)
                (near_terminator network))))
eval_passive_status_iff_example = eval_passive_status_iff network connected 4
