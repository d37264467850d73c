-- ===== src/Partner/Closure.antt =====
-- What `applyPartnerScopeToCreateRequest` of src/api/provider-auth.ts hands to a session.
use base_layer.Base.{
  true, false, Option, none, some, String, ◌≡◌, inl, inr, arith, sym, ap, ◌∙◌, truthy,
  same_text_iff, Bool-cases, ok, err, message, ◌>>=◌, bind-eq-ok, if◌then◌else◌,
}
use base_layer.Types.{SessionRecord, ProviderSessionMetadata, CreateSessionRequest}
use base_layer.Query.{provider_field}
use base_layer.Partner.{PartnerAuthContext, differs, forbidden, can_partner_access_session}
use base_layer.Partner.Scope.{
  spread, has_keys, merge_field, merge_metadata, merge_provider_scope,
  apply_partner_scope_to_create_request,
}
use base_layer.Partner.Isolation.{matches_scope_iff}

-- The field that a scope puts on a request never differs from what the scope wants.
merge_field-differs :
    (wanted value : Option String) (mismatch : String) {merged : Option String}
    → merge_field wanted value mismatch ≡ ok merged
    → differs wanted merged ≡ false
merge_field-differs wanted value mismatch {merged} h = elim (Bool-cases (truthy wanted)) [
  | inr f ↦ rw f
  | inl t ↦
      let e : wanted ≡ merged = ground arith in
      ground (arith, (same_text_iff merged wanted).1 (sym e))
]

-- The parts of a merge.
merge_metadata-ok :
    (p : ProviderSessionMetadata) (a : PartnerAuthContext) {merged : ProviderSessionMetadata}
    → merge_metadata p a ≡ ok merged
    → (t p' u : Option String) × (merge_field a.tenant_id p.tenant_id "Tenant scope mismatch."
        ≡ ok t)
      × (merge_field a.project_id p.project_id "Project scope mismatch." ≡ ok p')
      × (merge_field a.upstream_provider p.upstream_provider "Upstream provider scope mismatch."
          ≡ ok u)
      × (merged ≡ record p { tenant_id = t; project_id = p'; upstream_provider = u })
unfolding merge_metadata
merge_metadata-ok p a h =
    let (t, ht, h') =
      bind-eq-ok (merge_field a.tenant_id p.tenant_id "Tenant scope mismatch.") _ h in
    let (p', hp, h'') =
      bind-eq-ok (merge_field a.project_id p.project_id "Project scope mismatch.") _ h' in
    let (u, hu, e) =
      bind-eq-ok
        (merge_field a.upstream_provider p.upstream_provider "Upstream provider scope mismatch.") _
        h'' in
    (t, p', u, ht, hp, hu, ground arith)

-- The provider that a scoped request carries.
abbrev kept : ProviderSessionMetadata → Option ProviderSessionMetadata
kept merged = if has_keys merged then some merged else none

kept-fields :
    (m : ProviderSessionMetadata)
    → (provider_field (λ p. p.tenant_id) (kept m) ≡ m.tenant_id)
      × (provider_field (λ p. p.project_id) (kept m) ≡ m.project_id)
      × (provider_field (λ p. p.upstream_provider) (kept m) ≡ m.upstream_provider)
unfolding has_keys
kept-fields m = (ground arith, ground arith, ground arith)

pub record Scoped (request : CreateSessionRequest) (a : PartnerAuthContext)
    (scoped : CreateSessionRequest) : Type 0 where
  pub regions : forbidden a.allowed_regions request.region ≡ false
  pub profiles : forbidden a.allowed_runtime_profiles request.runtime_profile ≡ false
  pub merged : ProviderSessionMetadata
  pub metadata : merge_metadata (spread request.provider) a ≡ ok merged
  pub result : scoped ≡ record request { provider = kept merged }

apply_partner_scope-Scoped :
    (request : CreateSessionRequest) (a : PartnerAuthContext) (scoped : CreateSessionRequest)
    → apply_partner_scope_to_create_request request (some a) ≡ ok scoped
    → Scoped request a scoped
unfolding apply_partner_scope_to_create_request merge_provider_scope
apply_partner_scope-Scoped request a scoped h =
    elim (Bool-cases (forbidden a.allowed_regions request.region)) [
      | inl t ↦ absurd (refuse (rw t at h))
      | inr r ↦ elim (Bool-cases (forbidden a.allowed_runtime_profiles request.runtime_profile)) [
        | inl t ↦ absurd (refuse (rw (r, t) at h))
        | inr p ↦ merging r p (rw (r, p) at h)
      ]
    ]
  where
    refuse : {text : String} → err (message text) ≡ ok scoped → ⊥
    refuse e = ground arith

    merging :
        forbidden a.allowed_regions request.region ≡ false
        → forbidden a.allowed_runtime_profiles request.runtime_profile ≡ false
        → ((merge_metadata (spread request.provider) a >>= λ merged.
              ok (if has_keys merged then some merged else none))
            >>= λ provider. ok (record request { provider = provider }))
          ≡ ok scoped
        → Scoped request a scoped
    merging r p e =
        let (provider, e', e'') = bind-eq-ok _ _ e in
        let (merged, hm, hk) = bind-eq-ok (merge_metadata (spread request.provider) a) _ e' in
        record { regions = r; profiles = p; merged = merged; metadata = hm; result = ground arith }

-- A session that carries the provider, the region and the profile of a request that the partner was
-- allowed to make is within the partner's reach.
pub apply_partner_scope-closed :
    (request : CreateSessionRequest) (a : PartnerAuthContext) (scoped : CreateSessionRequest)
    (s : SessionRecord)
    → apply_partner_scope_to_create_request request (some a) ≡ ok scoped
    → s.provider ≡ scoped.provider
    → s.region ≡ scoped.region
    → s.runtime_profile ≡ scoped.runtime_profile
    → can_partner_access_session s (some a) ≡ true
unfolding can_partner_access_session
apply_partner_scope-closed request a scoped s h same_provider same_region same_profile =
    let c = apply_partner_scope-Scoped request a scoped h in
    let (t, p, u, ht, hp, hu, e) = merge_metadata-ok (spread request.provider) a c.metadata in
    let given = spread request.provider in
    let k = kept-fields c.merged in
    let provider : s.provider ≡ kept c.merged = same_provider ∙ ap (λ r. r.provider) c.result in
    let region : s.region ≡ request.region = same_region ∙ ap (λ r. r.region) c.result in
    let profile : s.runtime_profile ≡ request.runtime_profile =
      same_profile ∙ ap (λ r. r.runtime_profile) c.result in
    (matches_scope_iff s a).1 (
      rw (provider, k.0, e)
          (merge_field-differs a.tenant_id given.tenant_id "Tenant scope mismatch." ht),
      rw (provider, k.1, e)
          (merge_field-differs a.project_id given.project_id "Project scope mismatch." hp),
      rw (provider, k.2, e)
          (merge_field-differs a.upstream_provider given.upstream_provider
            "Upstream provider scope mismatch." hu),
      rw region c.regions,
      rw profile c.profiles,
    )
