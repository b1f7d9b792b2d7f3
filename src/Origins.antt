-- ===== src/Origins.antt =====
-- Which requests of other origins are let through: lib/httpapi/crossorigin.go.
--
-- Text is valid UTF-8, a list of code points: on such, a prefix, a suffix and whether the two
-- overlap are the same as on the bytes. `lower` is strings.ToLower, and `host_of` the host of a URL
-- that url.Parse accepts: arguments.
pub mod Wildcard
pub mod Trusted
use agentapi.Prelude.{
  ℕ, ◌+◌, ◌-◌, Bool, true, false, not, ◌&&◌, ◌||◌, List, [], ◌∷◌, ◌++◌, Option, none, some, String,
  str_eq, Text, text_eq, is_empty, codes, leb, ◌==◌, if◌then◌else◌, length, take, drop,
  contains_func,
}
use mathlib.Core.Option

-- What of an HTTP request is looked at; a header that is missing is empty.
pub record Request : Type 0 where
  pub method : String
  pub host : Text
  pub origin : Text
  pub sec_fetch_site : String

pub record TrustedOrigins : Type 0 where
  pub exact : List Text
  pub patterns : List (Text × Text)

abbrev pub star : ℕ
star = 42

-- strings.Cut at the first star.
unfoldable pub cut_star : Text → Option (Text × Text)
cut_star [] = none
cut_star (c ∷ s) =
    if c == star then some ([], s) else Option.map (λ parts. (c ∷ parts.0, parts.1)) (cut_star s)

-- One round of the loop of CrossOriginProtection.
unfoldable pub add_origin : Text → TrustedOrigins → TrustedOrigins
add_origin origin t = if text_eq origin (codes "*") then t else elim (cut_star origin) [
  | some parts ↦ record t { patterns = t.patterns ++ parts ∷ [] }
  | none ↦ record t { exact = t.exact ++ origin ∷ [] }
]

unfoldable pub add_origins : (Text → Text) → List Text → TrustedOrigins → TrustedOrigins
add_origins lower [] t = t
add_origins lower (o ∷ origins) t = add_origins lower origins (add_origin (lower o) t)

unfoldable pub trusted_origins : (Text → Text) → List Text → TrustedOrigins
trusted_origins lower trusted = add_origins lower trusted (record { exact = []; patterns = [] })

unfoldable pub has_prefix : Text → Text → Bool
has_prefix s p = leb (length p) (length s) && text_eq (take (length p) s) p

unfoldable pub has_suffix : Text → Text → Bool
has_suffix s p = leb (length p) (length s) && text_eq (drop (length s - length p) s) p

unfoldable pub fits_pattern : Text → Text × Text → Bool
fits_pattern origin p =
    leb (length p.0 + length p.1) (length origin) && has_prefix origin p.0 && has_suffix origin p.1

unfoldable pub matches : (Text → Text) → TrustedOrigins → Text → Bool
matches lower t origin =
    let o = lower origin in
    if is_empty o
    then false
    else contains_func (λ e. text_eq e o) t.exact || contains_func (fits_pattern o) t.patterns

-- The methods that change nothing.
unfoldable pub is_safe : String → Bool
is_safe method = str_eq method "GET" || str_eq method "HEAD" || str_eq method "OPTIONS"

-- Whether the origin's host is the request's own.
unfoldable pub is_own_host : (Text → Option Text) → Request → Bool
is_own_host host_of r = elim (host_of r.origin) [ none ↦ false | some host ↦ text_eq host r.host ]

unfoldable pub cross_origin_allowed :
    (Text → Text) → (Text → Option Text) → TrustedOrigins → Request → Bool
cross_origin_allowed lower host_of trusted r =
    if is_safe r.method
    then true
    else if str_eq r.sec_fetch_site "same-origin" || str_eq r.sec_fetch_site "none"
    then true
    else if str_eq r.sec_fetch_site "" && (is_empty r.origin || is_own_host host_of r)
    then true
    else matches lower trusted r.origin
