-- ===== src/Adapters/Fake/Search.antt =====
-- `search` of src/market_relay/adapters/fake/provider.py with the rows of
-- src/market_relay/ports/discovery.py. `str.upper` is an argument.
use market_relay.Prelude.{
  String, List, [], ◌∷◌, ◌++◌, Bool, false, ◌&&◌, ◌||◌, Option, none, some, if◌then◌else◌, ◌==◌,
  nat_eq,
}
use market_relay.Table.{select_where}
use market_relay.Governance.Credentials.{Text, codes, is_space, literal}
use market_relay.Observations.Store.{text_beq}
use market_relay.Catalog.{AssetClass, equity, crypto, asset_class_eq, allows}
use market_relay.Adapters.Fake.{source_name}

pub record DiscoveryQuery : Type 0 where
  pub query : Text
  pub asset_class : Option AssetClass
  pub currency : Option Text
  pub mic : Option Text

pub record DiscoveredIdentity : Type 0 where
  pub source : String
  pub external_id : String
  pub name : String
  pub asset_class : AssetClass
  pub ticker : Text
  pub venue : Text
  pub currency : Text
  pub isin : Option Text
  pub mic : Option Text

abbrev sap_at : String → String → DiscoveredIdentity
sap_at external_id venue = record {
  source = source_name;
  external_id = external_id;
  name = "SAP SE";
  asset_class = equity;
  ticker = codes "SAP";
  venue = codes venue;
  currency = codes "EUR";
  isin = some (codes "DE0007164600");
  mic = some (codes venue);
}

abbrev bitcoin : DiscoveredIdentity
bitcoin = record {
  source = source_name;
  external_id = "FAKE-BTC-KRAKEN";
  name = "Bitcoin";
  asset_class = crypto;
  ticker = codes "BTC";
  venue = codes "KRAKEN";
  currency = codes "EUR";
  isin = none;
  mic = none;
}

abbrev pub fake_identities : List DiscoveredIdentity
fake_identities =
    sap_at "FAKE-DE0007164600-XETR" "XETR" ∷ sap_at "FAKE-DE0007164600-XPAR" "XPAR" ∷ bitcoin ∷ []

-- needle in text
unfoldable pub occurs_in : Text → Text → Bool
unfolding literal
occurs_in needle [] = literal ◌==◌ needle []
occurs_in needle (c ∷ text) = literal ◌==◌ needle (c ∷ text) || occurs_in needle text

-- `str.strip`, at the start and then at the end.
unfoldable pub strip_start : Text → Text
unfolding is_space
strip_start [] = []
strip_start (c ∷ text) = let rest = strip_start text in if is_space c then rest else c ∷ text

unfoldable pub reversed : Text → Text
reversed [] = []
reversed (c ∷ text) = reversed text ++ c ∷ []

unfoldable pub strip : Text → Text
unfolding strip_start reversed
strip text = reversed (strip_start (reversed (strip_start text)))

abbrev pub isin_or_empty : Option Text → Text
isin_or_empty none = []
isin_or_empty (some isin) = isin

abbrev pub mic_matches : Option Text → Text → Bool
mic_matches none mic = false
mic_matches (some own) mic = text_beq own mic

-- The tests of the comprehensions, one after the other.
unfoldable pub matches_query : (Text → Text) → DiscoveryQuery → DiscoveredIdentity → Bool
unfolding occurs_in strip
matches_query upper q identity =
    let needle = upper (strip q.query) in
    (occurs_in needle (isin_or_empty identity.isin) || text_beq needle identity.ticker)
    && (allows (λ a. identity.asset_class == a) q.asset_class
        && (allows (λ currency. text_beq identity.currency (upper currency)) q.currency
            && allows (mic_matches identity.mic) q.mic))

unfoldable pub search : (Text → Text) → DiscoveryQuery → List DiscoveredIdentity
unfolding select_where matches_query
search upper q = select_where (matches_query upper q) fake_identities
