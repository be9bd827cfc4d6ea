-- ===== src/Tests/Domains.antt =====
-- Domains.
use Prim.Native.String.{◌++◌}
use catapulte.Common.{◌≡◌}
use catapulte.Routing.Domain.{normalize_domain, lowercase}
use catapulte.Routing.Domain.Laws.{normalize_domain_invariance}

normalize_domain_invariance_example :
    (normalize_domain (normalize_domain "ACME.com.") ≡ normalize_domain "ACME.com.")
    × (normalize_domain (lowercase "ACME.com.") ≡ normalize_domain "ACME.com.")
    × (normalize_domain ("ACME.com." ++ ".") ≡ normalize_domain "ACME.com.")
normalize_domain_invariance_example = normalize_domain_invariance "ACME.com."
