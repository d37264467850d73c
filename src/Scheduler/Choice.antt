-- ===== src/Scheduler/Choice.antt =====
-- The choice among the eligible hosts: the preferred region first, then the best score.
use base_layer.Base.{
  ℕ, Bool, true, false, List, [], ◌∷◌, ◌≡◌, ◌≢◌, ◌⊎◌, ◌↔◌, inl, inr, Memᴰ, arith, leb→le, filter,
  any, mem-filter, filter-mem, any-mem, mem-any, Bool-cases, refl, subst, ◌∙◌, truthy,
  same_text_iff, Result, ok, err, scheduler_error, sym,
}
use base_layer.Base.Int.{◌≤ℤ◌, int_laws, -ℤ_parts}
use base_layer.Base.Sort.{sort, not_after, sort-mem}
use base_layer.Base.Sort.Order.{IsOrder, sort-head}
use base_layer.Types.{HostRecord}
use base_layer.Scheduler.{
  HostSelectionOptions, matching_warm_ready_count, score_host, eligible, by_score, in_region,
  same_region_eligible, choose_host, first, is_empty,
}
use base_layer.Scheduler.Admission.{Admits, eligible_iff}

module _ (options : HostSelectionOptions) where
  not_after→le :
      (a b : HostRecord)
      → not_after (by_score options) a b ≡ true
      → score_host options b ≤ℤ score_host options a
  not_after→le a b h = omega (int_laws, leb→le _ _ h)

  by_score-IsOrder : IsOrder (by_score options)
  by_score-IsOrder = record {
    trans = λ a b c h k. grind (
      arith,
      -ℤ_parts (score_host options b) (score_host options a),
      -ℤ_parts (score_host options c) (score_host options b),
      -ℤ_parts (score_host options c) (score_host options a),
    );
    total = λ a b h. grind (
      arith,
      -ℤ_parts (score_host options b) (score_host options a),
      -ℤ_parts (score_host options a) (score_host options b),
    );
  }

  -- The two cases of the regional preference.
  same_region_eligible_cases :
      (hosts : List HostRecord)
      → ((truthy options.preferred_region ≡ true)
          × (any (in_region options) hosts ≡ true)
          × (same_region_eligible options hosts ≡ filter (in_region options) hosts))
        ⊎ (((truthy options.preferred_region ≡ false) ⊎ (any (in_region options) hosts ≡ false))
            × (same_region_eligible options hosts ≡ hosts))
  unfolding same_region_eligible
  same_region_eligible_cases hosts = elim (Bool-cases (truthy options.preferred_region)) [
    | inl t ↦ elim (Bool-cases (any (in_region options) hosts)) [
      | inl u ↦ inl (t, u, rw (t, u))
      | inr u ↦ inr (inr u, rw (t, u))
    ]
    | inr t ↦ inr (inl t, rw t)
  ]

  mem-same_region_eligible :
      (hosts : List HostRecord) {g : HostRecord}
      → Memᴰ g (same_region_eligible options hosts)
      → Memᴰ g hosts
  mem-same_region_eligible hosts {g} m = elim (same_region_eligible_cases hosts) [
    | inl (_, _, e) ↦ (mem-filter (in_region options) hosts (subst (Memᴰ g) e m)).0
    | inr (_, e) ↦ subst (Memᴰ g) e m
  ]

first-eq-ok :
    (l : List HostRecord) {h : HostRecord}
    → first l ≡ ok h
    → (rest : List HostRecord) × (l ≡ h ∷ rest)
first-eq-ok [] e = absurd (ground arith)
first-eq-ok (x ∷ xs) e = (xs, ground arith)

first_of_mem :
    (l : List HostRecord) {g : HostRecord} → Memᴰ g l → (h : HostRecord) × (first l ≡ ok h)
first_of_mem [] m = elim m [ ]
first_of_mem (x ∷ xs) m = (x, refl)

is_empty_of_mem : (l : List HostRecord) {g : HostRecord} → Memᴰ g l → is_empty l ≡ false
is_empty_of_mem [] m = elim m [ ]
is_empty_of_mem (x ∷ xs) m = refl

member_of_nonempty : (l : List HostRecord) → is_empty l ≡ false → (g : HostRecord) × Memᴰ g l
member_of_nonempty [] e = absurd (ground arith)
member_of_nonempty (x ∷ xs) e = (x, Memᴰ.head refl)

err-ne-ok : (r : Result HostRecord) {h : HostRecord} → r ≡ err scheduler_error → r ≡ ok h → ⊥
err-ne-ok r p q = ground arith

module _ (percent : ℕ → ℕ → ℕ) (hosts : List HostRecord) (options : HostSelectionOptions) where
  abbrev candidates : List HostRecord
  candidates = filter (eligible percent options) hosts

  abbrev warm_for : HostRecord → ℕ
  warm_for host = matching_warm_ready_count host options.runtime_profile

  candidate :
      {g : HostRecord} → Memᴰ g hosts → Admits percent options g (warm_for g) → Memᴰ g candidates
  candidate {g} m a =
      filter-mem (eligible percent options) hosts m ((eligible_iff percent options g).1 a)

  chosen_first :
      {h : HostRecord}
      → choose_host percent hosts options ≡ ok h
      → Memᴰ h (same_region_eligible options candidates)
        × ((g : HostRecord)
            → Memᴰ g (same_region_eligible options candidates)
            → score_host options g ≤ℤ score_host options h)
  unfolding choose_host
  chosen_first {h} e =
      let (rest, e') =
        first-eq-ok (sort (by_score options) (same_region_eligible options candidates))
          (ground arith) in
      let (m, low) =
        sort-head (by_score-IsOrder options) (same_region_eligible options candidates) e' in
      (m, λ g mg. not_after→le options h g (low g mg))

  -- The chosen host is one of the hosts, and meets every condition of admission.
  pub choose_host-Admits :
      {h : HostRecord}
      → choose_host percent hosts options ≡ ok h
      → Memᴰ h hosts × Admits percent options h (warm_for h)
  choose_host-Admits {h} e =
      let m = mem-same_region_eligible options candidates (chosen_first e).0 in
      let (m', t) = mem-filter (eligible percent options) hosts m in
      (m', (eligible_iff percent options h).0 t)

  -- Where a preferred region is given and some admissible host is in it, the chosen one is.
  pub choose_host-region :
      {h g : HostRecord}
      → choose_host percent hosts options ≡ ok h
      → truthy options.preferred_region ≡ true
      → Memᴰ g hosts
      → Admits percent options g (warm_for g)
      → g.region ≡ options.preferred_region
      → h.region ≡ options.preferred_region
  choose_host-region {h} {g} e t m a r = elim (same_region_eligible_cases options candidates) [
    | inl (_, _, same) ↦
        (same_text_iff _ _).0
          (mem-filter (in_region options) candidates (subst (Memᴰ h) same (chosen_first e).0)).1
    | inr (inl f, _) ↦ absurd (ground arith)
    | inr (inr f, _) ↦
        absurd (
          clash f
            (mem-any (in_region options) candidates (candidate m a) ((same_text_iff _ _).1 r)))
  ]
    where
      clash : {b : Bool} → b ≡ false → b ≡ true → ⊥
      clash p q = ground arith

  -- No admissible host that competes with the chosen one scores higher: none of its region, and none
  -- at all unless the choice was restricted to the preferred region.
  pub choose_host-best :
      {h g : HostRecord}
      → choose_host percent hosts options ≡ ok h
      → Memᴰ g hosts
      → Admits percent options g (warm_for g)
      → (g.region ≡ h.region)
        ⊎ ((truthy options.preferred_region ≡ false) ⊎ (h.region ≢ options.preferred_region))
      → score_host options g ≤ℤ score_host options h
  choose_host-best {h} {g} e m a c = (chosen_first e).1 g (competes c)
    where
      competes :
          (g.region ≡ h.region)
            ⊎ ((truthy options.preferred_region ≡ false) ⊎ (h.region ≢ options.preferred_region))
          → Memᴰ g (same_region_eligible options candidates)
      competes c = elim (same_region_eligible_cases options candidates) [
        | inr (_, same) ↦ subst (Memᴰ g) (sym same) (candidate m a)
        | inl (t, _, same) ↦
            let r : h.region ≡ options.preferred_region =
              (same_text_iff _ _).0
                (mem-filter (in_region options) candidates
                  (subst (Memᴰ h) same (chosen_first e).0)).1 in
            subst (Memᴰ g) (sym same) (
              filter-mem (in_region options) candidates (candidate m a) (
                (same_text_iff _ _).1 (elim c [
                  | inl q ↦ q ∙ r
                  | inr (inl f) ↦ absurd (ground arith)
                  | inr (inr n) ↦ absurd (n r)
                ])))
      ]

  chosen_of_candidate :
      {g : HostRecord}
      → Memᴰ g candidates
      → (h : HostRecord) × (choose_host percent hosts options ≡ ok h)
  unfolding choose_host
  chosen_of_candidate {g} m =
      let (g', m') = pool_member m in
      let (h, e) =
        first_of_mem (sort (by_score options) (same_region_eligible options candidates))
          (sort-mem (by_score options) _ m') in
      (h, rw (is_empty_of_mem candidates m) e)
    where
      pool_member :
          {g : HostRecord}
          → Memᴰ g candidates
          → (g' : HostRecord) × Memᴰ g' (same_region_eligible options candidates)
      pool_member {g} m = elim (same_region_eligible_cases options candidates) [
        | inl (_, t, same) ↦
            let (a, ma, ta) = any-mem (in_region options) candidates t in
            (a, subst (Memᴰ a) (sym same) (filter-mem (in_region options) candidates ma ta))
        | inr (_, same) ↦ (g, subst (Memᴰ g) (sym same) m)
      ]

  -- Scheduling fails exactly when no host is admissible.
  pub choose_host-fails_iff :
      (choose_host percent hosts options ≡ err scheduler_error)
      ↔ ((g : HostRecord) → Memᴰ g hosts → ¬ Admits percent options g (warm_for g))
  unfolding choose_host
  choose_host-fails_iff = (
    λ e g m a.
        let (h, e') = chosen_of_candidate (candidate m a) in
        absurd (err-ne-ok (choose_host percent hosts options) e e'),
    λ refused. elim (Bool-cases (is_empty candidates)) [
      | inl t ↦ rw t
      | inr f ↦
          let (g, m) = member_of_nonempty candidates f in
          let (m', t) = mem-filter (eligible percent options) hosts m in
          absurd (refused g m' ((eligible_iff percent options g).0 t))
    ],
  )

  -- The scheduler throws no other error.
  pub choose_host-cases :
      ((h : HostRecord) × (choose_host percent hosts options ≡ ok h))
      ⊎ (choose_host percent hosts options ≡ err scheduler_error)
  choose_host-cases = elim (Bool-cases (is_empty candidates)) [
    | inl t ↦ inr (choose_host_empty t)
    | inr f ↦ let (g, m) = member_of_nonempty candidates f in inl (chosen_of_candidate m)
  ]
    where
      choose_host_empty :
          is_empty candidates ≡ true → choose_host percent hosts options ≡ err scheduler_error
      choose_host_empty t =
          choose_host-fails_iff.1
            λ g m a. absurd (clash t (is_empty_of_mem candidates (candidate m a)))
        where
          clash : {b : Bool} → b ≡ true → b ≡ false → ⊥
          clash p q = ground arith
