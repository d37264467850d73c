-- ===== src/Partner/Isolation.antt =====
-- What partners see of sessions: the scopes of src/api/provider-auth.ts.
use base_layer.Base.{
  ℕ, zero, suc, ◌-◌, Bool, true, false, Option, none, some, List, [], ◌∷◌, String, ◌≡◌, ◌≢◌, ◌↔◌,
  inl, inr, Memᴰ, arith, sym, ◌∙◌, truthy, same_text_iff, Bool-cases, take, length, mem-filter,
  filter-mem, if◌then◌else◌,
}
use base_layer.Base.Int.{ℤ, pos, negsuc}
use base_layer.Types.{SessionRecord}
use base_layer.Query.{matches_query, provider_field}
use base_layer.Partner.{
  PartnerAuthContext, differs, forbidden, matches_scope, session_matches_partner_scope,
  can_partner_access_session,
}
use base_layer.Partner.Filter.{PartnerSessionQuery, slice, filter_sessions_for_partner}

mem-take {ℓ} : {A : Type ℓ} (n : ℕ) (xs : List A) {a : A} → Memᴰ a (take n xs) → Memᴰ a xs
mem-take zero xs m = elim m [ ]
mem-take (suc n) [] m = elim m [ ]
mem-take (suc n) (x ∷ xs) (Memᴰ.head e) = Memᴰ.head e
mem-take (suc n) (x ∷ xs) (Memᴰ.tail m) = Memᴰ.tail (mem-take n xs m)

mem-slice {ℓ} :
    {A : Type ℓ} (limit : Option ℤ) (xs : List A) {a : A} → Memᴰ a (slice limit xs) → Memᴰ a xs
unfolding slice
mem-slice none xs m = m
mem-slice (some (pos n)) xs m = mem-take n xs m
mem-slice (some (negsuc n)) xs m = mem-take (length xs - suc n) xs m

-- Whatever the query and the limit, a partner is shown only stored sessions of its scope that match
-- the query.
pub filter_sessions_for_partner_sound :
    (sessions : List SessionRecord) (q : PartnerSessionQuery) (auth : Option PartnerAuthContext)
    (s : SessionRecord)
    → Memᴰ s (filter_sessions_for_partner sessions q auth)
    → Memᴰ s sessions
      × (can_partner_access_session s auth ≡ true)
      × (matches_query q.query s ≡ true)
unfolding filter_sessions_for_partner can_partner_access_session
filter_sessions_for_partner_sound sessions q auth s m =
    let (m', matching) = mem-filter (matches_query q.query) _ (mem-slice q.limit _ m) in
    let (m'', mine) =
      mem-filter (λ session. session_matches_partner_scope session auth) sessions m' in
    (m'', mine, matching)

-- Without a limit, every stored session of the scope of the partner that matches the query is shown.
pub filter_sessions_for_partner_complete :
    (sessions : List SessionRecord) (q : PartnerSessionQuery) (auth : Option PartnerAuthContext)
    (s : SessionRecord)
    → q.limit ≡ none
    → Memᴰ s sessions
    → can_partner_access_session s auth ≡ true
    → matches_query q.query s ≡ true
    → Memᴰ s (filter_sessions_for_partner sessions q auth)
unfolding filter_sessions_for_partner can_partner_access_session slice
filter_sessions_for_partner_complete sessions q auth s unlimited m mine matching =
    rw (unlimited, slice)
      (filter-mem (matches_query q.query) _
        (filter-mem (λ session. session_matches_partner_scope session auth) sessions m mine)
        matching)

pub matches_scope_iff :
    (s : SessionRecord) (a : PartnerAuthContext)
    → (matches_scope s a ≡ true) ↔ (
        (differs a.tenant_id (provider_field (λ p. p.tenant_id) s.provider) ≡ false)
        × (differs a.project_id (provider_field (λ p. p.project_id) s.provider) ≡ false)
        × (differs a.upstream_provider (provider_field (λ p. p.upstream_provider) s.provider)
            ≡ false)
        × (forbidden a.allowed_regions s.region ≡ false)
        × (forbidden a.allowed_runtime_profiles s.runtime_profile ≡ false))
unfolding matches_scope
matches_scope_iff s a = five _ _ _ _ _
  where
    five :
        (p q r t u : Bool)
        → ((if p
              then false
              else if q
              then false
              else if r
              then false
              else if t
              then false
              else if u
              then false
              else true)
            ≡ true)
          ↔ ((p ≡ false) × (q ≡ false) × (r ≡ false) × (t ≡ false) × (u ≡ false))
    five p q r t u = ground arith

same_of_differs :
    (wanted value : Option String)
    → truthy wanted ≡ true
    → differs wanted value ≡ false
    → value ≡ wanted
same_of_differs wanted value t d = (same_text_iff value wanted).0 (ground arith)

-- No session is within reach of two keys of different tenants.
pub tenants_apart :
    (s : SessionRecord) (a b : PartnerAuthContext)
    → truthy a.tenant_id ≡ true
    → truthy b.tenant_id ≡ true
    → a.tenant_id ≢ b.tenant_id
    → can_partner_access_session s (some a) ≡ true
    → can_partner_access_session s (some b) ≡ false
unfolding can_partner_access_session
tenants_apart s a b ta tb apart mine = elim (Bool-cases (matches_scope s b)) [
  | inl other ↦ absurd (
      apart (
        sym (same_of_differs _ _ ta ((matches_scope_iff s a).0 mine).0)
        ∙ same_of_differs _ _ tb ((matches_scope_iff s b).0 other).0))
  | inr apart ↦ apart
]
