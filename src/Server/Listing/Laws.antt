-- ===== src/Server/Listing/Laws.antt =====
-- What the lists and the figures contain.
use base_layer.Base.{
  ℕ, ◌≤◌, true, Option, none, some, List, [], String, ◌≡◌, Memᴰ, sym, arith, ok, length, subst,
  mem-filter, filter, length-take,
}
use base_layer.Base.Int.{ℤ, pos, negsuc}
use base_layer.Base.Dict.{values}
use base_layer.Base.Sort.{mem-sort}
use base_layer.Types.{SessionRecord}
use base_layer.Types.Platform.{Platform}
use base_layer.Query.{ControlPlaneSessionQuery, matches_query}
use base_layer.Partner.{PartnerAuthContext, can_partner_access_session}
use base_layer.Partner.Filter.{slice, filter_sessions_for_partner}
use base_layer.Partner.Isolation.{filter_sessions_for_partner_sound}
use base_layer.Store.File.{ControlPlaneStore}
use base_layer.Store.Reads.{query_sessions, sessions_of}
use base_layer.Store.Settled.{reading-settles}
use base_layer.Server.Handler.{go_on-ok}
use base_layer.Server.Listing.{Limit, Listed, query_limit, list_limited, list_v1_sessions, no_query}

-- A limit that is not negative bounds how many are listed.
abbrev pub IsWithin : Limit → ℕ → Type 0
IsWithin none n = Unit {0}
IsWithin (some none) n = Unit {0}
IsWithin (some (some (pos limit))) n = n ≤ limit
IsWithin (some (some (negsuc limit))) n = Unit {0}

slice-IsWithin :
    (limit : Option ℤ) (sessions : List SessionRecord)
    → IsWithin (some limit) (length (slice limit sessions))
unfolding slice
slice-IsWithin none sessions = tt
slice-IsWithin (some (pos n)) sessions = omega (arith, length-take n sessions)
slice-IsWithin (some (negsuc n)) sessions = tt

module _ (platform : Platform) (auth : Option PartnerAuthContext)
    (query : ControlPlaneSessionQuery) where
  open platform use {formats}

  listed-In :
      (limit : Limit) (store : ControlPlaneStore) {listed : Listed} {after : ControlPlaneStore}
      (session : SessionRecord)
      → list_limited platform auth query limit store ≡ (ok listed, after)
      → Memᴰ session listed.sessions
      → Memᴰ session (values after.state.sessions)
        × (can_partner_access_session session auth ≡ true)
        × (matches_query query session ≡ true)
        × IsWithin limit (length listed.sessions)
  unfolding query_sessions sessions_of filter_sessions_for_partner
  listed-In none store {listed} session h m =
      let e : record { status = 400; sessions = [] } ≡ listed = ground arith in
      elim (subst (λ l. Memᴰ session (Listed.sessions l)) (sym e) m) [ ]
  listed-In (some limit) store {listed} {after} session h m =
      let (found, u, e, g) = go_on-ok (query_sessions platform query store) _ h in
      let (_, _, same) =
        reading-settles formats (λ s. filter (matches_query query) (sessions_of s)) store u e in
      let shown =
        filter_sessions_for_partner found (record { query = no_query; limit = limit }) auth in
      let e : record { status = 200; sessions = shown } ≡ listed = ground arith in
      let e' : u ≡ after = ground arith in
      let (kept, mine, _) =
        filter_sessions_for_partner_sound found _ auth session
          (subst (λ l. Memᴰ session (Listed.sessions l)) (sym e) m) in
      let (there, matching) =
        mem-filter (matches_query query) (sessions_of u.state)
          (subst (Memᴰ session) (sym same) kept) in
      (
        subst (λ z. Memᴰ session (values z.state.sessions)) e'
            (mem-sort _ (values u.state.sessions) there),
        mine,
        matching,
        subst (λ l. IsWithin (some limit) (length (Listed.sessions l))) e (slice-IsWithin limit _),
      )

  -- A session that is listed for a partner is stored, within reach of the partner's key and matches the
  -- query, and no more are listed than a limit that is not negative.
  pub list_v1_sessions-IsWithin :
      (limit : Option String) (store : ControlPlaneStore) {listed : Listed}
      {after : ControlPlaneStore} (session : SessionRecord)
      → list_v1_sessions platform auth query limit store ≡ (ok listed, after)
      → Memᴰ session listed.sessions
      → Memᴰ session (values after.state.sessions)
        × (can_partner_access_session session auth ≡ true)
        × (matches_query query session ≡ true)
        × IsWithin (query_limit limit) (length listed.sessions)
  unfolding list_v1_sessions
  list_v1_sessions-IsWithin limit store session h m =
      listed-In (query_limit limit) store session h m
