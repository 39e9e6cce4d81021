-- ===== src/Catalog.antt =====
-- src/market_relay/domain/catalog (models.py and service.py): instruments, their listings and the
-- identifiers that providers give them. The limits on a column's length are the database's and are
-- not modelled.
pub mod Finding
use market_relay.Prelude.{
  ℕ, String, List, [], ◌∷◌, ◌++◌, Bool, true, false, not, ◌&&◌, ◌||◌, Option, none, some, ◌≡◌, ◌↔◌,
  Eq, if◌then◌else◌, ◌==◌, nat_beq, nat_eq, string_eq, leb, arith,
}
use market_relay.Table.{select_where, count_where, find_where}
use market_relay.Governance.Credentials.{Text}
use market_relay.Observations.Store.{upper, text_beq}
use market_relay.Action.{Outcome, returned, raised, integrity_error, ambiguous_match, Action}

pub data AssetClass : Type 0 where
  equity etf fund crypto : AssetClass

abbrev asset_class_code : AssetClass → ℕ
asset_class_code equity = 0
asset_class_code etf = 1
asset_class_code fund = 2
asset_class_code crypto = 3

pub asset_class_beq_iff :
    (a b : AssetClass) → (nat_beq (asset_class_code a) (asset_class_code b) ≡ true) ↔ (a ≡ b)
asset_class_beq_iff a b = ground arith

instance abbrev pub asset_class_eq : Eq AssetClass
asset_class_eq = record {
  equals = λ a b. nat_beq (asset_class_code a) (asset_class_code b);
  equals_iff = asset_class_beq_iff;
}

pub record Instrument : Type 0 where
  pub id : ℕ
  pub asset_class : AssetClass
  pub name : String
  pub isin : Option String
  pub figi : Option String

pub record Listing : Type 0 where
  pub id : ℕ
  pub instrument_id : ℕ
  pub mic : Option String
  pub venue : String
  pub ticker : String
  pub currency : Text

pub record ExternalIdentity : Type 0 where
  pub id : ℕ
  pub listing_id : ℕ
  pub source : String
  pub external_id : String
  pub valid_from : ℕ
  pub valid_to : Option ℕ

pub record Catalog : Type 0 where
  pub instruments : List Instrument
  pub listings : List Listing
  pub external_identities : List ExternalIdentity

-- Two columns under a unique constraint: a NULL is like no other value.
abbrev pub same_column : Option String → Option String → Bool
same_column none b = false
same_column (some a) none = false
same_column (some a) (some b) = a == b

abbrev pub same_instrument : Instrument → Instrument → Bool
same_instrument i row = row.id == i.id || same_column i.isin row.isin

unfoldable pub register_instrument :
    ℕ → AssetClass → String → Option String → Option String → Action Catalog Instrument
unfolding count_where
register_instrument uuid asset_class name isin figi c =
    let instrument : Instrument = record {
      id = uuid;
      asset_class = asset_class;
      name = name;
      isin = isin;
      figi = figi;
    } in
    if count_where (same_instrument instrument) c.instruments == 0
    then (returned instrument, record c { instruments = c.instruments ++ instrument ∷ [] })
    else (raised integrity_error, c)

-- `uq_listings_venue_ticker_ccy`, and the primary key.
abbrev pub same_listing : Listing → Listing → Bool
same_listing l row =
    row.id == l.id
    || (row.instrument_id == l.instrument_id
        && (row.venue == l.venue && (row.ticker == l.ticker && text_beq row.currency l.currency)))

abbrev pub is_instrument : ℕ → Instrument → Bool
is_instrument i row = row.id == i

unfoldable pub new_listing : ℕ → Instrument → String → String → Text → Option String → Listing
unfolding upper
new_listing uuid instrument venue ticker currency mic = record {
  id = uuid;
  instrument_id = instrument.id;
  mic = mic;
  venue = venue;
  ticker = ticker;
  currency = upper currency;
}

-- The constraints at the flush: the unique ones, and the foreign key.
unfoldable pub is_addable : Listing → Catalog → Bool
unfolding count_where
is_addable l c =
    count_where (same_listing l) c.listings == 0
    && not (count_where (is_instrument l.instrument_id) c.instruments == 0)

unfoldable pub add_listing :
    ℕ → Instrument → String → String → Text → Option String → Action Catalog Listing
unfolding new_listing is_addable
add_listing uuid instrument venue ticker currency mic c =
    let listing = new_listing uuid instrument venue ticker currency mic in
    if is_addable listing c
    then (returned listing, record c { listings = c.listings ++ listing ∷ [] })
    else (raised integrity_error, c)

-- The check constraint `valid_to_after_valid_from`.
abbrev pub is_after : ℕ → Option ℕ → Bool
is_after valid_from none = true
is_after valid_from (some valid_to) = leb valid_from valid_to

-- `uq_external_identities_source_ext_from`, and the primary key.
abbrev pub same_identity : ExternalIdentity → ExternalIdentity → Bool
same_identity e row =
    row.id == e.id
    || (row.source == e.source
        && (row.external_id == e.external_id && row.valid_from == e.valid_from))

abbrev pub is_listing : ℕ → Listing → Bool
is_listing i row = row.id == i

unfoldable pub link_external_identity :
    ℕ → Listing → String → String → ℕ → Option ℕ → Action Catalog ExternalIdentity
unfolding count_where
link_external_identity uuid listing source external_id valid_from valid_to c =
    let identity : ExternalIdentity = record {
      id = uuid;
      listing_id = listing.id;
      source = source;
      external_id = external_id;
      valid_from = valid_from;
      valid_to = valid_to;
    } in
    if is_after valid_from valid_to
      && (count_where (same_identity identity) c.external_identities == 0
          && not (count_where (is_listing listing.id) c.listings == 0))
    then (
      returned identity,
      record c { external_identities = c.external_identities ++ identity ∷ [] },
    )
    else (raised integrity_error, c)

pub record ListingSearchCriteria : Type 0 where
  pub isin : Option String
  pub figi : Option String
  pub ticker : Option String
  pub mic : Option String
  pub venue : Option String
  pub currency : Option Text
  pub asset_class : Option AssetClass

-- A criterion that is left out restricts nothing; a NULL in the row equals nothing.
abbrev pub allows {ℓ} : {A : Type ℓ} → (A → Bool) → Option A → Bool
allows p none = true
allows p (some a) = p a

abbrev pub matches_instrument : ListingSearchCriteria → Instrument → Bool
matches_instrument k i =
    allows (λ isin. same_column (some isin) i.isin) k.isin
    && (allows (λ figi. same_column (some figi) i.figi) k.figi
        && allows (λ a. i.asset_class == a) k.asset_class)

abbrev pub matches_listing : ListingSearchCriteria → Listing → Bool
matches_listing k l =
    allows (λ ticker. l.ticker == ticker) k.ticker
    && (allows (λ mic. same_column (some mic) l.mic) k.mic
        && (allows (λ venue. l.venue == venue) k.venue
            && allows (λ currency. text_beq l.currency (upper currency)) k.currency))

-- The row of the join: the listing's instrument, by its primary key.
unfoldable pub is_found : ListingSearchCriteria → List Instrument → Listing → Bool
unfolding find_where
is_found k instruments l = elim (find_where (is_instrument l.instrument_id) instruments) [
  | none ↦ false
  | some i ↦ matches_instrument k i && matches_listing k l
]

unfoldable pub find_listings : ListingSearchCriteria → Catalog → List Listing
unfolding select_where is_found
find_listings k c = select_where (is_found k c.instruments) c.listings

abbrev pub single : List Listing → Outcome Listing
single (l ∷ []) = returned l
single _ = raised ambiguous_match

unfoldable pub resolve_single_listing : ListingSearchCriteria → Catalog → Outcome Listing
unfolding find_listings
resolve_single_listing k c = single (find_listings k c)

unfoldable pub get_instrument : ℕ → Catalog → Option Instrument
unfolding find_where
get_instrument i c = find_where (is_instrument i) c.instruments

unfoldable pub get_listing : ℕ → Catalog → Option Listing
unfolding find_where
get_listing i c = find_where (is_listing i) c.listings
