-- ===== src/Provisioning/Outcomes.antt =====
-- When provisioning succeeds, and what it leaves behind.
use unoc_network_simulator.Prelude.{
  ℕ, ◌≡◌, refl, ap, sym, subst, true, false, Option, some, List, arith, Bool-cases, Option-cases,
  inl, inr, is_some,
}
use unoc_network_simulator.Model.{
  Device, DeviceType, backbone_gateway, pop, core_site, core_router, edge_router, aon_switch, olt,
  ont, aon_cpe, splitter, hop, nvt, odf, business_ont,
}
use unoc_network_simulator.Addressing.Pools.{PoolKey, IpPool, allocate}
use unoc_network_simulator.Provisioning.Defs.{
  Provisionee, Provisioned, raised, done, already_provisioned, is_provisionable, classify_pool,
  dependency_ok, ensure_pool, write_pool, with_defaults, address_from, provision_device,
}

-- Every type that may be provisioned has a pool.
pooled : (ty : DeviceType) → is_provisionable ty ≡ true → is_some (classify_pool ty) ≡ true
pooled backbone_gateway h = h
pooled pop h = h
pooled core_site h = h
pooled core_router h = refl
pooled edge_router h = refl
pooled aon_switch h = refl
pooled olt h = refl
pooled ont h = refl
pooled aon_cpe h = refl
pooled splitter h = h
pooled hop h = h
pooled nvt h = h
pooled odf h = h
pooled business_ont h = refl

-- What a success tells: the conditions held, and the pool of the type handed out the address.
pub record Success (rows : List Device) (pools : List IpPool) (d : Provisionee) (ip : Option ℕ)
    (d' : Provisionee) (pools' : List IpPool) : Type 0 where
  pub may : is_provisionable d.row.type ≡ true
  pub was_not : d.row.provisioned ≡ false
  pub met_before : dependency_ok rows d.row ≡ true
  pub key : PoolKey
  pub of_type : classify_pool d.row.type ≡ some key
  pub address : ℕ
  pub pool : IpPool
  pub handed_out : allocate (ensure_pool pools key) ≡ some (address, pool)
  pub gives : ip ≡ some address
  pub device : d' ≡ with_defaults d
  pub written : pools' ≡ write_pool pools pool

done_inj :
    {i j : Option ℕ} {d e : Provisionee} {p q : List IpPool}
    → done i d p ≡ done j e q
    → (i ≡ j) × (d ≡ e) × (p ≡ q)
done_inj {i} {d = d} {p = p} h = (
  ap (λ (r : Provisioned). elim r [ raised e ↦ i | done x y z ↦ x ]) h,
  ap (λ (r : Provisioned). elim r [ raised e ↦ d | done x y z ↦ y ]) h,
  ap (λ (r : Provisioned). elim r [ raised e ↦ p | done x y z ↦ z ]) h,
)

module _ (rows : List Device) (pools : List IpPool) (d : Provisionee) where
  address_of :
      (ip : Option ℕ) (d' : Provisionee) (pools' : List IpPool)
      → is_provisionable d.row.type ≡ true
      → d.row.provisioned ≡ false
      → dependency_ok rows d.row ≡ true
      → address_from d pools (classify_pool d.row.type) ≡ done ip d' pools'
      → Success rows pools d ip d' pools'
  address_of ip d' pools' may fresh met h = elim (Option-cases (classify_pool d.row.type)) [
    | inl none_for ↦ absurd (ground (arith, pooled d.row.type may))
    | inr (k, of_k) ↦ elim (Option-cases (allocate (ensure_pool pools k))) [
      | inl empty ↦ absurd (ground arith)
      | inr ((a, p), e) ↦
          let same : done (some a) (with_defaults d) (write_pool pools p) ≡ done ip d' pools' =
            ground arith in
          let (ip_is, d_is, pools_is) = done_inj same in
          record {
            may = may;
            was_not = fresh;
            met_before = met;
            key = k;
            of_type = of_k;
            address = a;
            pool = p;
            handed_out = e;
            gives = sym ip_is;
            device = sym d_is;
            written = sym pools_is;
          }
    ]
  ]

  -- A provisioning that succeeds was of a provisionable type, not provisioned before, with its
  -- prerequisite there, and takes its address from the pool of its type.
  pub provision_device-Success :
      (ip : Option ℕ) (d' : Provisionee) (pools' : List IpPool)
      → provision_device rows pools d ≡ done ip d' pools'
      → Success rows pools d ip d' pools'
  unfolding provision_device
  provision_device-Success ip d' pools' h = elim (Bool-cases (is_provisionable d.row.type)) [
    | inr never ↦ absurd (ground arith)
    | inl may ↦ elim (Bool-cases d.row.provisioned) [
      | inl already ↦ absurd (ground arith)
      | inr fresh ↦ elim (Bool-cases (dependency_ok rows d.row)) [
        | inr missing ↦ absurd (ground arith)
        | inl met ↦ address_of ip d' pools' may fresh met (ground arith)
      ]
    ]
  ]

  -- A device that was provisioned is refused from then on, whatever the tables have become.
  pub provision_device-twice :
      (ip : Option ℕ) (d' : Provisionee) (pools' : List IpPool)
      → provision_device rows pools d ≡ done ip d' pools'
      → (rows'' : List Device) (pools'' : List IpPool)
      → provision_device rows'' pools'' d' ≡ raised already_provisioned
  unfolding provision_device
  provision_device-twice ip d' pools' h rows'' pools'' =
      let w = provision_device-Success ip d' pools' h in
      subst (λ (x : Provisionee). provision_device rows'' pools'' x ≡ raised already_provisioned)
        (sym w.device) (rw w.may refl)
