-- ===== src/Forwarding/LongestPrefix.antt =====
-- `_longest_prefix_match` of l3_service.py against the routes that match.
use unoc_network_simulator.Prelude.{
  ℕ, ◌<◌, ◌≡◌, refl, ap, ◌⊎◌, Bool, false, ◌||◌, Option, none, some, List, [], ◌∷◌, ◌++◌, arith,
  Bool-cases, Option-cases, inl, inr, any, is_some, ltb→lt, ltb, leb,
}
use unoc_network_simulator.Model.{Route}
use unoc_network_simulator.Forwarding.Decision.{
  address, match_length, of_vrf, best_match, longest_prefix_match, route_of,
}

abbrev at_least : ℕ → Option ℕ → Bool
at_least len none = false
at_least len (some plen) = leb len plen

abbrev above : ℕ → Option ℕ → Bool
above len none = false
above len (some plen) = ltb len plen

-- The route matches, with at least the length.
abbrev reaches : ℕ → ℕ → Route → Bool
reaches target len r = at_least len (match_length target r)

-- The route matches, with a greater length.
abbrev exceeds : ℕ → ℕ → Route → Bool
exceeds target len r = above len (match_length target r)

-- The lookup's answer, described by where the route stands: it matches with some length, the routes
-- before it that match are shorter, and those after it are no longer.
pub record IsLongest (target : ℕ) (rs : List Route) (r : Route) : Type 0 where
  pub before : List Route
  pub after : List Route
  pub len : ℕ
  pub split : rs ≡ before ++ r ∷ after
  pub matches : match_length target r ≡ some len
  pub shorter_before : any (λ x. reaches target len x) before ≡ false
  pub no_longer_after : any (λ x. exceeds target len x) after ≡ false

||_false : (a b : Bool) → a ≡ false → b ≡ false → (a || b) ≡ false
||_false a b h k = ground arith

abbrev shift :
    (target : ℕ) (x : Route) (xs : List Route) (r : Route) (w : IsLongest target xs r)
    → reaches target w.len x ≡ false
    → IsLongest target (x ∷ xs) r
shift target x xs r w h = record {
  before = x ∷ w.before;
  after = w.after;
  len = w.len;
  split = ap (λ l. x ∷ l) w.split;
  matches = w.matches;
  shorter_before =
      ||_false (reaches target w.len x) (any (λ y. reaches target w.len y) w.before) h
        w.shorter_before;
  no_longer_after = w.no_longer_after;
}

abbrev first :
    (target : ℕ) (x : Route) (xs : List Route) (len : ℕ)
    → match_length target x ≡ some len
    → any (λ y. exceeds target len y) xs ≡ false
    → IsLongest target (x ∷ xs) x
first target x xs len m h = record {
  before = [];
  after = xs;
  len = len;
  split = refl;
  matches = m;
  shorter_before = refl;
  no_longer_after = h;
}

-- From a best of a length the search goes on to the first of the longest routes that exceed it.
pub best_match-some :
    (target : ℕ) (rs : List Route) (len : ℕ) (r : Route)
    → (any (λ x. exceeds target len x) rs ≡ false)
        × (best_match target rs (some (len, r)) ≡ some (len, r))
      ⊎ ((r' : Route) × (w : IsLongest target rs r') × (len < w.len)
          × (best_match target rs (some (len, r)) ≡ some (w.len, r')))
unfolding best_match
best_match-some target [] len r = inl (refl, refl)
best_match-some target (x ∷ xs) len r = elim (Option-cases (match_length target x)) [
  | inl gone ↦ rw gone (elim (best_match-some target xs len r) [
    | inl stays ↦ inl stays
    | inr (r', w, lt, e) ↦ inr (r', shift target x xs r' w (ground (arith, gone)), lt, e)
  ])
  | inr (plen, m) ↦ rw m (elim (Bool-cases (ltb len plen)) [
    | inl longer ↦ rw longer (elim (best_match-some target xs plen x) [
      | inl (none_left, e) ↦ inr (x, first target x xs plen m none_left, ltb→lt len plen longer, e)
      | inr (r', w, lt, e) ↦
          inr (r', shift target x xs r' w (ground (arith, m)), ground (arith, longer), e)
    ])
    | inr not_longer ↦ rw not_longer (elim (best_match-some target xs len r) [
      | inl stays ↦ inl stays
      | inr (r', w, lt, e) ↦ inr (r', shift target x xs r' w (ground (arith, m, not_longer)), lt, e)
    ])
  ])
]

-- A search that starts with no best finds the first of the longest routes, if any route matches.
pub best_match-none :
    (target : ℕ) (rs : List Route)
    → (any (λ x. is_some (match_length target x)) rs ≡ false) × (best_match target rs none ≡ none)
      ⊎ ((r : Route) × (w : IsLongest target rs r) × (best_match target rs none ≡ some (w.len, r)))
unfolding best_match
best_match-none target [] = inl (refl, refl)
best_match-none target (x ∷ xs) = elim (Option-cases (match_length target x)) [
  | inl gone ↦ rw gone (elim (best_match-none target xs) [
    | inl stays ↦ inl stays
    | inr (r, w, e) ↦ inr (r, shift target x xs r w (ground (arith, gone)), e)
  ])
  | inr (plen, m) ↦ rw m (elim (best_match-some target xs plen x) [
    | inl (none_left, e) ↦ inr (x, first target x xs plen m none_left, e)
    | inr (r, w, lt, e) ↦ inr (r, shift target x xs r w (ground (arith, m)), e)
  ])
]

-- A lookup answers nothing exactly if no route of the VRF matches, and otherwise it answers the
-- first of the routes of the VRF that match with the greatest length.
pub longest_prefix_match-IsLongest :
    (rows : List Route) (vrf target : ℕ)
    → (any (λ x. is_some (match_length target x)) (of_vrf rows vrf) ≡ false)
        × (longest_prefix_match rows vrf (address target) ≡ none)
      ⊎ ((r : Route) × IsLongest target (of_vrf rows vrf) r
          × (longest_prefix_match rows vrf (address target) ≡ some r))
unfolding longest_prefix_match
longest_prefix_match-IsLongest rows vrf target = elim (best_match-none target (of_vrf rows vrf)) [
  | inl (gone, e) ↦ inl (gone, ap route_of e)
  | inr (r, w, e) ↦ inr (r, w, ap route_of e)
]
