-- ===== src/Search/Queues.antt =====
-- The ends at which a search adds to what it still has to visit.
use unoc_network_simulator.Prelude.{ℕ, refl, ◌∙◌, List, [], ◌∷◌, ◌++◌, arith, length-append}
use unoc_network_simulator.Prelude.Sets.{contains-append}
use unoc_network_simulator.Search.Flood.{IsPush}

-- `stack.append(v)`, where `stack.pop()` takes the last.
abbrev pub push_top : List ℕ → ℕ → List ℕ
push_top q v = v ∷ q

-- `queue.append(v)`
abbrev pub push_back : List ℕ → ℕ → List ℕ
push_back q v = q ++ v ∷ []

pub push_top-IsPush : IsPush push_top
push_top-IsPush = record { holds = λ q v x. refl; grows = λ q v. refl }

pub push_back-IsPush : IsPush push_back
push_back-IsPush = record {
  holds = λ q v x. contains-append x q (v ∷ []) ∙ ground arith;
  grows = λ q v. ground (arith, length-append q (v ∷ []));
}
