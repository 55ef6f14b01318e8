-- ===== src/Addressing/FreeHost.antt =====
-- The address that `next_free_ip_in_prefix` returns.
use unoc_network_simulator.Prelude.{
  ℕ, zero, suc, ◌+◌, ◌≤◌, ◌<◌, ◌≡◌, refl, Bool, true, false, Option, none, some, List, arith, ◌==◌,
  Bool-cases, inl, inr, subst, ap, ==_iff,
}
use unoc_network_simulator.Model.{Net, InterfaceAddress}
use unoc_network_simulator.Addressing.Prefixes.{
  Prefix, strict_network, first_host, host_count, taken, first_untaken, FreeIp, free, exhausted,
  value_error, with_length, next_free_ip_in_prefix,
}

-- A host in a range that is not taken, below which the range is taken.
pub record LowestFree (rows : List InterfaceAddress) (p first count ip : ℕ) : Type 0 where
  pub from : first ≤ ip
  pub below : ip < first + count
  pub is_free : taken rows p ip ≡ false
  pub lower_taken : (x : ℕ) → first ≤ x → x < ip → taken rows p x ≡ true

-- A test that holds at a number, and above it up to some number, holds there.
holds_from :
    (q : ℕ → Bool) (host x : ℕ)
    → q host ≡ true
    → host ≤ x
    → (suc host ≤ x → q x ≡ true)
    → q x ≡ true
holds_from q host x here ge above = elim (Bool-cases (host == x)) [
  | inl e ↦ subst (λ (y : ℕ). q y ≡ true) ((==_iff host x).0 e) here
  | inr ne ↦ above (ground arith)
]

first_untaken-LowestFree :
    (rows : List InterfaceAddress) (p k host ip : ℕ)
    → first_untaken rows p k host ≡ some ip
    → LowestFree rows p host k ip
unfolding first_untaken
first_untaken-LowestFree rows p zero host ip h = absurd (ground arith)
first_untaken-LowestFree rows p (suc k) host ip h = elim (Bool-cases (taken rows p host)) [
  | inl t ↦
      let w = first_untaken-LowestFree rows p k (suc host) ip (ground arith) in
      record {
        from = omega (arith, w.from);
        below = omega (arith, w.below);
        is_free = w.is_free;
        lower_taken =
            λ x ge lt. holds_from (taken rows p) host x t ge (λ gt. w.lower_taken x gt lt);
      }
  | inr f ↦
      let same : host ≡ ip = ground arith in
      record {
        from = omega (arith, same);
        below = omega (arith, same);
        is_free = subst (λ (y : ℕ). taken rows p y ≡ false) same f;
        lower_taken = λ x ge lt. absurd (omega (arith, same, ge, lt));
      }
]

first_untaken-none :
    (rows : List InterfaceAddress) (p k host x : ℕ)
    → first_untaken rows p k host ≡ none
    → host ≤ x
    → x < host + k
    → taken rows p x ≡ true
unfolding first_untaken
first_untaken-none rows p zero host x h ge lt = absurd (omega (arith, ge, lt))
first_untaken-none rows p (suc k) host x h ge lt = elim (Bool-cases (taken rows p host)) [
  | inl t ↦
      holds_from (taken rows p) host x t ge
        (λ gt. first_untaken-none rows p k (suc host) x (ground arith) gt (omega (arith, lt)))
  | inr f ↦ absurd (ground arith)
]

with_length_free :
    (len : ℕ) (o : Option ℕ) (ip len' : ℕ) → with_length len o ≡ free ip len' → o ≡ some ip
with_length_free len none ip len' h = ground arith
with_length_free len (some i) ip len' h =
    ap (λ (r : FreeIp). elim r [ value_error ↦ none | exhausted ↦ none | free j l ↦ some j ]) h

with_length_exhausted : (len : ℕ) (o : Option ℕ) → with_length len o ≡ exhausted → o ≡ none
with_length_exhausted len none h = refl
with_length_exhausted len (some i) h = ground arith

module _ (rows : List InterfaceAddress) (p : ℕ) (net : Net)
    (strict : strict_network net ≡ true) where
  abbrev row : Prefix
  row = record { id = p; prefix = some net }

  -- The address that a strict prefix hands out is a host of it that no row has in that prefix, and
  -- every lower host is taken.
  pub next_free_ip-LowestFree :
      (ip len : ℕ)
      → next_free_ip_in_prefix rows row ≡ free ip len
      → LowestFree rows p (first_host net) (host_count net) ip
  unfolding next_free_ip_in_prefix
  next_free_ip-LowestFree ip len h =
      first_untaken-LowestFree rows p (host_count net) (first_host net) ip (
        with_length_free net.prefixlen (first_untaken rows p (host_count net) (first_host net)) ip
          len (ground (arith, strict)))

  -- A strict prefix is exhausted only if every host of it is taken.
  pub next_free_ip-exhausted :
      next_free_ip_in_prefix rows row ≡ exhausted
      → (x : ℕ) → first_host net ≤ x
      → x < first_host net + host_count net
      → taken rows p x ≡ true
  unfolding next_free_ip_in_prefix
  next_free_ip-exhausted h x ge lt =
      first_untaken-none rows p (host_count net) (first_host net) x
        (with_length_exhausted net.prefixlen
          (first_untaken rows p (host_count net) (first_host net)) (ground (arith, strict)))
        ge lt
