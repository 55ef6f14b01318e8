-- ===== src/Search/Walks.antt =====
-- What a search is to find: the nodes on a walk from the seeds, and how many nodes are still unseen.
use unoc_network_simulator.Prelude.{
  ℕ, suc, ◌≤◌, ◌<◌, ◌≡◌, refl, Bool, true, false, List, [], ◌∷◌, ◌++◌, arith, ◌==◌, if◌then◌else◌,
  Bool-cases, inl, inr, length, ==_iff,
}
use unoc_network_simulator.Prelude.Sets.{contains}

-- A walk starts at a seed, goes along `next`, and enters only nodes that are `ok`.
pub data Walk (seeds : List ℕ) (next : ℕ → List ℕ) (ok : ℕ → Bool) : ℕ → Type 0 where
  seed : (v : ℕ) → contains v seeds ≡ true → Walk seeds next ok v
  step :
      (u v : ℕ)
      → Walk seeds next ok u
      → contains v (next u) ≡ true
      → ok v ≡ true
      → Walk seeds next ok v

-- A list of nodes leads from one to another along edges.
pub data Route (next : ℕ → List ℕ) : ℕ → List ℕ → ℕ → Type 0 where
  here : (a : ℕ) → Route next a (a ∷ []) a
  go :
      (a b c : ℕ) (rest : List ℕ)
      → contains b (next a) ≡ true
      → Route next b rest c
      → Route next a (a ∷ rest) c

pub Route-extend :
    (next : ℕ → List ℕ) (a b c : ℕ) (p : List ℕ)
    → Route next a p b
    → contains c (next b) ≡ true
    → Route next a (p ++ c ∷ []) c
Route-extend next a _ c _ (here _) edge = go a c c (c ∷ []) edge (here c)
Route-extend next a b c _ (go _ d _ rest first later) edge =
    go a d c (rest ++ c ∷ []) first (Route-extend next d b c rest later edge)

-- A path is a walk.
pub Walk_of_Route :
    (seeds : List ℕ) (next : ℕ → List ℕ) (a b : ℕ) (p : List ℕ)
    → Walk seeds next (λ _. true) a
    → Route next a p b
    → Walk seeds next (λ _. true) b
Walk_of_Route seeds next a _ _ w (here _) = w
Walk_of_Route seeds next a b _ w (go _ c _ rest edge later) =
    Walk_of_Route seeds next c b rest (step a c w edge refl) later

-- The nodes of `nodes` that are not in `seen`, as often as they stand there.
unfoldable pub unseen : List ℕ → List ℕ → ℕ
unseen [] seen = 0
unseen (u ∷ us) seen = if contains u seen then unseen us seen else suc (unseen us seen)

pub unseen-cons-le : (us : List ℕ) (v : ℕ) (seen : List ℕ) → unseen us (v ∷ seen) ≤ unseen us seen
unfolding unseen
unseen-cons-le [] v seen = omega arith
unseen-cons-le (u ∷ us) v seen = ground (arith, unseen-cons-le us v seen)

pub unseen-cons-lt :
    (us : List ℕ) (v : ℕ) (seen : List ℕ)
    → contains v us ≡ true
    → contains v seen ≡ false
    → unseen us (v ∷ seen) < unseen us seen
unfolding unseen
unseen-cons-lt [] v seen h k = ground arith
unseen-cons-lt (u ∷ us) v seen h k = elim (Bool-cases (u == v)) [
  | inl e ↦
      let e' : u ≡ v = (==_iff u v).0 e in
      rw e' (ground (arith, unseen-cons-le us v seen, ==_iff v v))
  | inr n ↦ ground (arith, unseen-cons-lt us v seen)
]

pub unseen-le-length : (us seen : List ℕ) → unseen us seen ≤ length us
unfolding unseen
unseen-le-length [] seen = omega arith
unseen-le-length (u ∷ us) seen = ground (arith, unseen-le-length us seen)
