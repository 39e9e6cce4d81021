-- ===== src/Catalog/Finding.antt =====
-- What a search of the catalog finds after a listing is added.
use market_relay.Prelude.{
  ℕ, String, List, [], ◌∷◌, ◌++◌, Option, ◌≡◌, sym, if◌then◌else◌, nat_eq, string_eq, Bool-cases,
  inl, inr,
}
use mathlib.Core.List.{append-nil}
use market_relay.Table.Latest.{select_where-append}
use market_relay.Governance.Credentials.{Text}
use market_relay.Action.{Outcome, returned, raised}
use market_relay.Catalog.{
  Instrument, Listing, ListingSearchCriteria, Catalog, add_listing, is_found, find_listings,
  new_listing, is_addable,
}

-- What an addition adds to a search: the listing, when the search is satisfied by it.
abbrev pub newly_found : ListingSearchCriteria → Catalog → Outcome Listing → List Listing
newly_found k c (raised e) = []
newly_found k c (returned l) = if is_found k c.instruments l then l ∷ [] else []

-- A listing that is added is found by exactly the searches that it satisfies, after all that they
-- found before; when the addition is refused no search changes.
pub find_listings-add_listing :
    (k : ListingSearchCriteria) (uuid : ℕ) (instrument : Instrument) (venue ticker : String)
    (currency : Text) (mic : Option String) (c : Catalog)
    → let added = add_listing uuid instrument venue ticker currency mic c in
      find_listings k added.1 ≡ find_listings k c ++ newly_found k c added.0
unfolding add_listing find_listings
find_listings-add_listing k uuid instrument venue ticker currency mic c =
    let l = new_listing uuid instrument venue ticker currency mic in
    elim (Bool-cases (is_addable l c)) [
      | inl e ↦ rw e (select_where-append (is_found k c.instruments) c.listings l)
      | inr e ↦ rw e (sym (append-nil (find_listings k c)))
    ]
