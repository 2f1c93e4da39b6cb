-- ===== src/Destination/Tests.antt =====
-- Concrete paths for the theorems on destinations.
use openportal.Base.{[], ◌∷◌, false, some, ◌⊎◌, ◌≢◌, ◌≡◌, refl, sym, ◌∙◌}
use openportal.Base.Text.{Text, text, split, contains, is_whitespace, join}
use openportal.Error.{ok, err}
use openportal.Error
use openportal.Destination.{
  Destination, parse, display, position, next, previous, error, upstream, downstream, destination,
  has_whitespace, destination_eq, index_of, destination_beq,
}
use openportal.Destination.Parse.{IsPath, parse-display-parse}
use openportal.Destination.Hops.{hop_spec, position-hop_spec, position_adjacent}
use openportal.Destination.Lists.{Destinations, holds}

abbrev waldur : Text
waldur = text "waldur"

abbrev provider : Text
provider = text "provider"

abbrev clusters : Text
clusters = text "clusters"

abbrev path : Destination
path = record { agents = waldur ∷ provider ∷ clusters ∷ [] }

abbrev short_path : Destination
short_path = record { agents = waldur ∷ provider ∷ [] }

program : Unit {0}
unfolding parse display split join contains is_whitespace has_whitespace position index_of next
    previous destination_beq
program = tt

-- Empty pieces are dropped, so a doubled separator is harmless; white space is not.
parse_runs :
    (parse (text "waldur..provider.clusters") ≡ ok path)
    × (parse (text "a b.c") ≡ err Error.parse)
    × (parse (text "waldur.") ≡ err Error.parse)
    × (display path ≡ text "waldur.provider.clusters")
unfolding program
parse_runs = (refl, refl, refl, refl)

position_runs :
    (position path provider waldur ≡ downstream)
    × (position path clusters provider ≡ destination)
    × (position path provider clusters ≡ upstream)
    × (position path clusters waldur ≡ error)
unfolding program
position_runs = (refl, refl, refl, refl)

parse-display-parse_example : IsPath path × (parse (display path) ≡ ok path)
parse-display-parse_example =
    parse-display-parse (text "waldur..provider.clusters") {d = path} parse_runs.0

position-hop_spec_example : position path clusters provider ≡ hop_spec path clusters provider
position-hop_spec_example = position-hop_spec path clusters provider (refl, (refl, (refl, tt)))

provider_accepts : position path provider waldur ≢ error
provider_accepts e = let h : downstream ≡ error = sym position_runs.0 ∙ e in cc

position_adjacent_example :
    (position path provider waldur ≡ upstream)
      × (next path provider ≡ some waldur)
      × (previous path waldur ≡ some provider)
    ⊎ (position path provider waldur ≢ upstream)
      × (next path waldur ≡ some provider)
      × (previous path provider ≡ some waldur)
position_adjacent_example = position_adjacent path provider waldur provider_accepts

abbrev both : Destinations
both = record { destinations = path ∷ short_path ∷ [] }

abbrev one : Destinations
one = record { destinations = path ∷ [] }

both_distinct : holds (short_path ∷ []) path ≡ false
unfolding program
both_distinct = refl
