-- ===== src/Web/Discovery/Adds.antt =====
-- When `addSelected` of web/src/screens/UserDiscovery.tsx comes to an end.
use entra_shift.Common.{Bool, not, List, any, is_some}
use entra_shift.Web.Discovery.{DiscoveredUser, Selections, listed}

-- A selected user is not on the list that the screen shows.
abbrev pub misses : List DiscoveredUser → Selections → Bool
misses users = any (λ r. not (is_some (listed r.0 users)))
