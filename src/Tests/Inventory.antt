-- ===== src/Tests/Inventory.antt =====
-- The inventory of pool/inventory.go: two rows of one user, one of them banned.
use kiro_go_plus.Base.{List, [], ◌∷◌, bytes_eq}
use kiro_go_plus.Base.Text.{codes}
use kiro_go_plus.Pool.Inventory.{Row}
use kiro_go_plus.Tests.Failover.{stored_alpha}

abbrev row : Row
row = record {
  stored = stored_alpha;
  provider = codes "google";
  user_id = codes "u1";
  credential_fingerprint = [];
  email = [];
  kiro_api_key = [];
  auth_method = codes "social";
}

abbrev rows : List Row
rows = record row { stored = record stored_alpha { ban_status = codes "banned" } } ∷ row ∷ []
