-- ===== src/Dashboard/Mounting/Tests.antt =====
-- The patterns under one prefix.
use rate_limiting_reverse_pr.Prelude.{AreDistinct}
use rate_limiting_reverse_pr.Dashboard.Mounting.{all_patterns, all_patterns-AreDistinct}

all_patterns-AreDistinct_example : AreDistinct (all_patterns "/_proxy/")
all_patterns-AreDistinct_example = all_patterns-AreDistinct "/_proxy/"
