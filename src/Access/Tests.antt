-- ===== src/Access/Tests.antt =====
-- A request of a member who may not write.
use flowcart.Prelude.{[], ◌∷◌, pos, some}
use flowcart.Database.{support}
use flowcart.Database.Samples.{shop, user, sample, clock}
use flowcart.Access.{Request, WritersOnly, services-OnlyWriters}

abbrev asked : Request
asked = record {
  clock = clock;
  tenant = record { organization_id = shop; user_id = user; role = support };
  id = 5;
  other_id = 3;
  quantity = pos 4;
  reorder_point = some (pos 1);
  target = some (pos 8);
  key = "k-1";
  order = record { items = record { inventory_level_id = 5; quantity = pos 2 } ∷ [] };
  auto_order = record { items = record { product_id = 2; quantity = pos 2 } ∷ [] };
  transfer = record {
    source_warehouse_id = 3;
    destination_warehouse_id = 4;
    items = record { product_id = 2; quantity = pos 2 } ∷ [];
  };
  fulfillment = record { reservation_ids = 7 ∷ [] };
  digest_order = λ i. "h";
  digest_auto = λ i. "h";
  digest_transfer = λ i. "h";
  digest_ids = λ i. "h";
}

services-OnlyWriters_example : WritersOnly asked sample
services-OnlyWriters_example = services-OnlyWriters asked sample
