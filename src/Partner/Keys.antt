-- ===== src/Partner/Keys.antt =====
-- `ProviderApiKeyStore` of src/api/provider-auth.ts: which key a request carries.
use Prim.Native.String.{len}
use base_layer.Base.{
  Bool, true, false, ◌||◌, not, Option, none, some, List, [], ◌∷◌, String, if◌then◌else◌, nat_eq,
  ◌==◌, eq_iff, filter, find, find-mem, find-none, mem-filter, filter-mem, ◌≡◌, ◌≢◌, ◌↔◌, Memᴰ,
  arith, refl, sym, ap, Bool-cases, Option-cases, inl, inr,
}
use base_layer.Allowlist.{ConfigFile}
use base_layer.Partner.{ProviderApiKeyConfigEntry, PartnerAuthContext}
use base_layer.Partner.Headers.{Headers, extract_api_key}

pub record ProviderApiKeyStore : Type 0 where
  pub entries : List ProviderApiKeyConfigEntry
  pub enforced : Bool

-- Byte by byte, in constant time, behind a test of the lengths in UTF-8.
pub matches_api_key : String → String → Bool
matches_api_key expected actual =
    if not (nat_eq (len expected) (len actual)) then false else expected == actual

unfoldable pub new : List ProviderApiKeyConfigEntry → Bool → ProviderApiKeyStore
new configured enforced = record {
  entries = filter (λ entry. entry.enabled) configured;
  enforced = enforced;
}

-- A file that cannot be read, parsed or accepted leaves no key.
unfoldable pub load : ConfigFile ProviderApiKeyConfigEntry → Bool → ProviderApiKeyStore
load (ConfigFile.document (some parsed)) enforced = new parsed enforced
load _ enforced = new [] enforced

abbrev non_empty : List ProviderApiKeyConfigEntry → Bool
non_empty [] = false
non_empty (entry ∷ rest) = true

unfoldable pub required : ProviderApiKeyStore → Bool
required store = store.enforced || non_empty store.entries

unfoldable pub context_of : ProviderApiKeyConfigEntry → PartnerAuthContext
context_of match = record {
  key_id = match.key_id;
  name = match.name;
  tenant_id = match.tenant_id;
  project_id = match.project_id;
  upstream_provider = match.upstream_provider;
  allowed_regions = match.allowed_regions;
  allowed_runtime_profiles = match.allowed_runtime_profiles;
}

abbrev found : Option ProviderApiKeyConfigEntry → Option PartnerAuthContext
found none = none
found (some match) = some (context_of match)

authenticate_key : ProviderApiKeyStore → Option String → Option PartnerAuthContext
unfolding matches_api_key context_of
authenticate_key store none = none
authenticate_key store (some api_key) =
    if api_key == ""
    then none
    else found (find (λ entry. matches_api_key entry.api_key api_key) store.entries)

unfoldable pub authenticate : ProviderApiKeyStore → Headers → Option PartnerAuthContext
unfolding authenticate_key
authenticate store headers = authenticate_key store (extract_api_key headers)

matches_api_key_iff : (a b : String) → (matches_api_key a b ≡ true) ↔ (a ≡ b)
unfolding matches_api_key
matches_api_key_iff a b = ground (arith, eq_iff a b, ap len {x = a} {y = b})

found-eq-some :
    (o : Option ProviderApiKeyConfigEntry) {auth : PartnerAuthContext}
    → found o ≡ some auth
    → (entry : ProviderApiKeyConfigEntry) × (o ≡ some entry) × (auth ≡ context_of entry)
found-eq-some none h = absurd (ground arith)
found-eq-some (some entry) h = (entry, refl, ground arith)

found-eq-none : (o : Option ProviderApiKeyConfigEntry) → found o ≡ none → o ≡ none
found-eq-none none h = refl
found-eq-none (some entry) h = absurd (ground arith)

-- A request is authenticated only by a configured and enabled entry whose key is the one that its
-- headers carry, which is not empty, and it gets the scope of that entry.
pub authenticate_sound :
    (configured : List ProviderApiKeyConfigEntry) (enforced : Bool) (headers : Headers)
    (auth : PartnerAuthContext)
    → authenticate (new configured enforced) headers ≡ some auth
    → (entry : ProviderApiKeyConfigEntry) × Memᴰ entry configured
      × (entry.enabled ≡ true)
      × (extract_api_key headers ≡ some entry.api_key)
      × (entry.api_key ≢ "")
      × (auth ≡ context_of entry)
unfolding authenticate new
authenticate_sound configured enforced headers auth h =
    elim (Option-cases (extract_api_key headers)) [
      | inl e ↦ absurd (no_key (rw e at h))
      | inr (key, e) ↦ rw e (by_key key (rw e at h))
    ]
  where
    no_key : authenticate_key (new configured enforced) none ≡ some auth → ⊥
    no_key h = ground arith

    by_key :
        (key : String)
        → authenticate_key (new configured enforced) (some key) ≡ some auth
        → (entry : ProviderApiKeyConfigEntry) × Memᴰ entry configured
          × (entry.enabled ≡ true)
          × (some key ≡ some entry.api_key)
          × (entry.api_key ≢ "")
          × (auth ≡ context_of entry)
    by_key key h = elim (Bool-cases (key == "")) [
      | inl e ↦ absurd (ground arith)
      | inr e ↦
          let (entry, hit, same) = found-eq-some _ (rw e at h) in
          let (m, t) = find-mem (λ entry. matches_api_key entry.api_key key) _ hit in
          let (m', on) = mem-filter (λ entry. entry.enabled) configured m in
          let k : entry.api_key ≡ key = (matches_api_key_iff entry.api_key key).0 t in
          (entry, m', on, ap some (sym k), λ z. ground (arith, eq_iff key ""), same)
    ]

-- A request with a non-empty key that is refused carries the key of no configured and enabled entry.
pub authenticate_complete :
    (configured : List ProviderApiKeyConfigEntry) (enforced : Bool) (headers : Headers)
    (key : String) (entry : ProviderApiKeyConfigEntry)
    → extract_api_key headers ≡ some key
    → key ≢ ""
    → authenticate (new configured enforced) headers ≡ none
    → Memᴰ entry configured
    → entry.enabled ≡ true
    → entry.api_key ≢ key
unfolding authenticate new
authenticate_complete configured enforced headers key entry e ne h m on same =
    ground (arith, matches_api_key_iff entry.api_key key, missed)
  where
    refused : authenticate_key (new configured enforced) (some key) ≡ none
    refused = rw e at h

    unmatched :
        find
          (λ entry. matches_api_key entry.api_key key)
          (filter (λ entry. entry.enabled) configured)
        ≡ none
    unmatched = elim (Bool-cases (key == "")) [
      | inl z ↦ absurd (ne ((eq_iff key "").0 z))
      | inr z ↦ found-eq-none _ (rw z at refused)
    ]

    missed : matches_api_key entry.api_key key ≡ false
    missed =
        find-none (λ entry. matches_api_key entry.api_key key) _ unmatched
          (filter-mem (λ entry. entry.enabled) configured m on)
