-- ===== src/Examples/Origins.antt =====
-- An example of the theorem about requests of other origins.
use agentapi.Prelude.{◌≡◌, ◌↔◌, refl, true, false, List, [], ◌∷◌, some, Text, codes, is_empty}
use agentapi.Origins.{Request, is_safe, trusted_origins, cross_origin_allowed}
use agentapi.Origins.Trusted.{TrustedBy, cross_origin_allowed_iff}

abbrev a_post : Request
a_post = record {
  method = "POST";
  host = codes "localhost:3284";
  origin = codes "https://a.example.com";
  sec_fetch_site = "cross-site";
}

abbrev trusted : List Text
trusted = codes "*" ∷ codes "https://*.example.com" ∷ []

cross_origin_allowed_iff_example :
    (cross_origin_allowed (λ s. s) (λ u. some u) (trusted_origins (λ s. s) trusted) a_post ≡ true)
    ↔ ((is_empty a_post.origin ≡ false) × TrustedBy (λ s. s) trusted a_post.origin)
unfolding is_safe
cross_origin_allowed_iff_example =
    cross_origin_allowed_iff (λ s. s) (λ u. some u) trusted a_post refl refl refl refl
