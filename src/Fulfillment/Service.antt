-- ===== src/Fulfillment/Service.antt =====
-- apps/api/internal/fulfillment/service.go: who may complete a fulfillment, and the checks of the
-- request. The digest of a request, SHA-256 of the JSON of its identifiers, is a parameter.
use flowcart.Prelude.{
  ℕ, String, Bool, true, not, ◌&&◌, ◌||◌, List, [], ◌∷◌, ◌==◌, ltb, length, sort_by, trim_space,
}
use flowcart.Database.{Clock, Tx, ◌>>◌, throw_if}
use flowcart.Pagination.{max_limit, bad_key}
use flowcart.Organization.Role.{TenantContext, can_write}
use flowcart.Fulfillment.Model.{
  FulfillmentError, invalid_input, forbidden, FulfillmentView, CreateInput,
}
use flowcart.Fulfillment.Completing as Completing

-- the loop over the sorted identifiers, each compared with the one before
unfoldable pub follows : ℕ → List ℕ → Bool
follows last [] = true
follows last (id ∷ ids) = not (id == 0 || last == id) && follows id ids

unfoldable pub check_ids : List ℕ → Bool
unfolding follows
check_ids [] = true
check_ids (id ∷ ids) = not (id == 0) && follows id ids

-- `Service.Complete`
unfoldable pub complete :
    (List ℕ → String)
    → Clock
    → TenantContext
    → ℕ
    → String
    → CreateInput
    → Tx FulfillmentError FulfillmentView
unfolding check_ids trim_space sort_by Completing.complete
complete digest clock tenant order key input =
    let ids = sort_by ltb input.reservation_ids in
    do
      throw_if (not (can_write tenant.role)) forbidden
      throw_if
          (order == 0
            || bad_key (trim_space key)
            || length input.reservation_ids == 0
            || ltb max_limit (length input.reservation_ids))
          invalid_input
      throw_if (not (check_ids ids)) invalid_input
      Completing.complete clock tenant.organization_id tenant.user_id order (trim_space key)
          (digest ids) ids
