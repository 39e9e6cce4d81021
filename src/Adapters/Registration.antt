-- ===== src/Adapters/Registration.antt =====
-- What an adapter is found by after it was registered or removed.
use market_relay.Prelude.{
  String, Bool, ◌&&◌, none, some, if◌then◌else◌, ◌==◌, string_eq, ◌≡◌, subst, arith, [], ◌∷◌,
  Bool-cases, inl, inr,
}
use market_relay.Dict.{Dict, get, get-put}
use market_relay.Action.{returned, raised, unknown_source}
use market_relay.Adapters.{
  Registry, Capability, discovery, metadata, historical, latest, calendar, quota, adapters,
  or_unknown, get_port, pop, provides, register_in, view_set, view_delete, is_registered, pop_all,
}

module _ {P : Type 0} where
  register_in-exact :
      (hasattr : P → String → Bool) (c : Capability) (key k : String) (value : P) (r : Registry P)
      → or_unknown (get k (register_in hasattr c key value r)) ≡ (
          if key == k && provides hasattr value c
          then returned value
          else or_unknown (get k (adapters c r)))
  register_in-exact hasattr c key k value r = elim (Bool-cases (provides hasattr value c)) [
    | inr f ↦ rw f (ground arith)
    | inl t ↦ rw (t, get-put key k value (adapters c r)) (ground arith)
  ]

  -- An object that is registered under a source is found there under exactly the capabilities whose
  -- methods it has. What is found under the other capabilities, and under other sources, stays.
  pub view_set-registers :
      (hasattr : P → String → Bool) (c : Capability) (key k : String) (value : P) (r : Registry P)
      → get_port c k (view_set hasattr key value r)
        ≡ (if key == k && provides hasattr value c then returned value else get_port c k r)
  unfolding get_port view_set
  view_set-registers hasattr discovery = register_in-exact hasattr discovery
  view_set-registers hasattr metadata = register_in-exact hasattr metadata
  view_set-registers hasattr historical = register_in-exact hasattr historical
  view_set-registers hasattr latest = register_in-exact hasattr latest
  view_set-registers hasattr calendar = register_in-exact hasattr calendar
  view_set-registers hasattr quota = register_in-exact hasattr quota

  get-pop :
      (key k : String) (d : Dict String P)
      → get k (pop key d) ≡ (if key == k then none else get k d)
  unfolding get pop
  get-pop key k [] = ground arith
  get-pop key k ((j, v) ∷ d) = ground (
    arith,
    get-pop key k d,
    string_eq.equals_iff j key,
    string_eq.equals_iff key k,
    string_eq.equals_iff j k,
  )

  pop_all-removes :
      (c : Capability) (key k : String) (r : Registry P)
      → get_port c k (pop_all key r) ≡ (if key == k then raised unknown_source else get_port c k r)
  unfolding get_port
  pop_all-removes discovery key k r = rw (get-pop key k r.discovery_adapters) (ground arith)
  pop_all-removes metadata key k r = rw (get-pop key k r.metadata_adapters) (ground arith)
  pop_all-removes historical key k r = rw (get-pop key k r.historical_adapters) (ground arith)
  pop_all-removes latest key k r = rw (get-pop key k r.latest_adapters) (ground arith)
  pop_all-removes calendar key k r = rw (get-pop key k r.calendar_adapters) (ground arith)
  pop_all-removes quota key k r = rw (get-pop key k r.quota_adapters) (ground arith)

  -- Once a source was removed, none of its capabilities is registered; those of other sources are as
  -- they were.
  pub view_delete-removes :
      (c : Capability) (key k : String) (r r' : Registry P)
      → view_delete key r ≡ some r'
      → get_port c k r' ≡ (if key == k then raised unknown_source else get_port c k r)
  unfolding view_delete
  view_delete-removes c key k r r' h = elim (Bool-cases (is_registered key r)) [
    | inr f ↦ absurd (cc (rw f at h))
    | inl t ↦
        let popped : pop_all key r ≡ r' = ground (arith, rw t at h) in
        subst (λ x. get_port c k x ≡ (if key == k then raised unknown_source else get_port c k r))
          popped (pop_all-removes c key k r)
  ]
