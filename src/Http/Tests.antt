-- ===== src/Http/Tests.antt =====
-- The Retry-After theorems at concrete inputs.
use anchor_rs.Prelude.{◌≡◌, ◌↔◌, none, true, codes, all}
use anchor_rs.Http.RetryAfter.{from_str, is_whitespace}
use anchor_rs.Http.RetryAfter.Laws.{from_str-eq-none_iff}

from_str-eq-none_iff_example :
    (from_str (codes " 5") ≡ none) ↔ (all is_whitespace (codes " 5") ≡ true)
from_str-eq-none_iff_example = from_str-eq-none_iff (codes " 5")
