-- ===== src/Adapters.antt =====
-- src/market_relay/adapters/registry.py: adapters by capability, and the calendars' routes. An object
-- that is registered has any type; `hasattr` says which methods it has.
pub mod Registration
pub mod Routes
pub mod Fake
use market_relay.Prelude.{
  ℕ, String, List, [], ◌∷◌, ◌++◌, map, Bool, true, false, not, ◌&&◌, ◌||◌, Option, none, some,
  if◌then◌else◌, ◌==◌, Eq, string_eq, is_in, ◌≡◌, ◌↔◌, refl, arith,
}
use market_relay.Table.{select_where}
use market_relay.Dict.{Dict, get, put}
use market_relay.Governance.Credentials.{Text, codes}
use market_relay.Observations.Store.{text_beq}
use market_relay.Action.{Outcome, returned, raised, unknown_source, calendar_unavailable}

pub text_beq_iff : (a b : Text) → (text_beq a b ≡ true) ↔ (a ≡ b)
text_beq_iff [] [] = (λ h. refl, λ h. refl)
text_beq_iff [] (d ∷ u) = (λ h. cc, λ h. cc)
text_beq_iff (c ∷ t) [] = (λ h. cc, λ h. cc)
text_beq_iff (c ∷ t) (d ∷ u) =
    (λ h. ground (arith, h, text_beq_iff t u), λ h. ground (arith, h, text_beq_iff t u))

instance abbrev pub text_eq : Eq Text
text_eq = record { equals = text_beq; equals_iff = text_beq_iff }

pub data Capability : Type 0 where
  discovery metadata historical latest calendar quota : Capability

-- The six dictionaries of the module.
pub record Registry (P : Type 0) : Type 0 where
  pub discovery_adapters : Dict String P
  pub metadata_adapters : Dict String P
  pub historical_adapters : Dict String P
  pub latest_adapters : Dict String P
  pub calendar_adapters : Dict String P
  pub quota_adapters : Dict String P

-- `get_calendar_for_listing`, with `str.upper` for the first argument and the routes for the second.
abbrev or_empty : Option Text → Text
or_empty none = []
or_empty (some mic) = mic

abbrev pub is_nonempty : Text → Bool
is_nonempty [] = false
is_nonempty (c ∷ t) = true

unfoldable pub route_keys : (Text → Text) → Option Text → Text → List Text
unfolding select_where
route_keys upper mic venue =
    select_where is_nonempty (upper (or_empty mic) ∷ upper venue ∷ codes "*" ∷ [])

module _ {P : Type 0} where
  abbrev pub adapters : Capability → Registry P → Dict String P
  adapters discovery r = r.discovery_adapters
  adapters metadata r = r.metadata_adapters
  adapters historical r = r.historical_adapters
  adapters latest r = r.latest_adapters
  adapters calendar r = r.calendar_adapters
  adapters quota r = r.quota_adapters

  -- `_get`, and the functions that call it for a capability.
  abbrev pub or_unknown : Option P → Outcome P
  or_unknown none = raised unknown_source
  or_unknown (some adapter) = returned adapter

  unfoldable pub get_port : Capability → String → Registry P → Outcome P
  unfolding get
  get_port capability source r = or_unknown (get source (adapters capability r))

  -- d.pop(key, None)
  unfoldable pub pop : String → Dict String P → Dict String P
  pop key [] = []
  pop key ((k, v) ∷ d) = let rest = pop key d in if k == key then rest else (k, v) ∷ rest

  abbrev is_some : Option P → Bool
  is_some none = false
  is_some (some adapter) = true

  unfoldable pub contains_key : String → Dict String P → Bool
  unfolding get
  contains_key key d = is_some (get key d)

  abbrev pub first_of : Option P → Option P → Option P
  first_of none other = other
  first_of (some adapter) other = some adapter

  -- `__getitem__`; `none` is a KeyError.
  unfoldable pub view_get : String → Registry P → Option P
  unfolding get
  view_get key r = first_of (get key r.historical_adapters) (
      first_of (get key r.discovery_adapters)
        (first_of (get key r.calendar_adapters) (get key r.quota_adapters)))

  -- `found` of `__delitem__`: a pop found the key.
  unfoldable pub is_registered : String → Registry P → Bool
  unfolding contains_key
  is_registered key r =
      contains_key key r.discovery_adapters
      || (contains_key key r.metadata_adapters
          || (contains_key key r.historical_adapters
              || (contains_key key r.latest_adapters
                  || (contains_key key r.calendar_adapters || contains_key key r.quota_adapters))))

  abbrev pub pop_all : String → Registry P → Registry P
  pop_all key r = record {
    discovery_adapters = pop key r.discovery_adapters;
    metadata_adapters = pop key r.metadata_adapters;
    historical_adapters = pop key r.historical_adapters;
    latest_adapters = pop key r.latest_adapters;
    calendar_adapters = pop key r.calendar_adapters;
    quota_adapters = pop key r.quota_adapters;
  }

  -- `__delitem__`; `none` is a KeyError, and then nothing was removed.
  unfoldable pub view_delete : String → Registry P → Option (Registry P)
  unfolding pop is_registered
  view_delete key r = if is_registered key r then some (pop_all key r) else none

  -- `keys.update(registry)`: a set has a key once.
  unfoldable pub add_keys : Dict String P → List String → List String
  add_keys [] keys = keys
  add_keys ((k, v) ∷ d) keys = add_keys d (if is_in k keys then keys else keys ++ k ∷ [])

  -- `__iter__`, and the list whose length is `__len__`.
  unfoldable pub view_keys : Registry P → List String
  unfolding add_keys
  view_keys r =
      add_keys r.calendar_adapters
        (add_keys r.historical_adapters (add_keys r.discovery_adapters []))

  module _ (hasattr : P → String → Bool) where
    -- The test that `__setitem__` makes for a capability.
    abbrev pub provides : P → Capability → Bool
    provides value discovery = hasattr value "search"
    provides value metadata = hasattr value "get_metadata"
    provides value historical = hasattr value "fetch_range"
    provides value latest = hasattr value "fetch_latest"
    provides value calendar = hasattr value "sessions_in_range"
    provides value quota = hasattr value "check" && hasattr value "consume"

    abbrev pub register_in : Capability → String → P → Registry P → Dict String P
    register_in capability key value r =
        if provides value capability
        then put key value (adapters capability r)
        else adapters capability r

    -- `__setitem__`
    unfoldable pub view_set : String → P → Registry P → Registry P
    unfolding put
    view_set key value r = record {
      discovery_adapters = register_in discovery key value r;
      metadata_adapters = register_in metadata key value r;
      historical_adapters = register_in historical key value r;
      latest_adapters = register_in latest key value r;
      calendar_adapters = register_in calendar key value r;
      quota_adapters = register_in quota key value r;
    }

  unfoldable pub calendar_of_keys : Dict Text String → List Text → Registry P → Outcome P
  unfolding get get_port
  calendar_of_keys routes [] r = raised calendar_unavailable
  calendar_of_keys routes (key ∷ keys) r =
      let rest = calendar_of_keys routes keys r in
      elim (get key routes) [ some source ↦ get_port calendar source r | none ↦ rest ]

  unfoldable pub get_calendar_for_listing :
      (Text → Text) → Dict Text String → Option Text → Text → Registry P → Outcome P
  unfolding route_keys calendar_of_keys
  get_calendar_for_listing upper routes mic venue r =
      calendar_of_keys routes (route_keys upper mic venue) r
