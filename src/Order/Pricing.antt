-- ===== src/Order/Pricing.antt =====
-- The prices and totals of an order, in apps/api/internal/order/repository.go. `Create` and
-- `AutoCreate` have the same statements here, each over the items of its own input.
use text.Mathlib.Text.{◌==◌ as text_eq}
use flowcart.Prelude.{
  ℕ, String, Bool, not, ◌&&◌, ◌||◌, none, some, List, [], ◌∷◌, ◌++◌, ◌==◌, ◌/◌, if◌then◌else◌, ℤ,
  pos, ltb_ℤ, max_int64, add64, sub64, mul64, Map, lookup, insert, Result, ok, err,
}
use flowcart.Database.{Tx, Product, ◌>>=◌, pure, throw, or_throw}
use flowcart.Database.Stock.{find_product}
use flowcart.Order.Model.{
  OrderError, invalid_input, not_found, product_price_missing, mixed_currency_order,
  order_total_overflow, inactive_product, nil_dereference,
}

-- `pricingSnapshot`, once its price and currency are known to be there
pub record PricingSnapshot : Type 0 where
  pub product_id : ℕ
  pub sku : String
  pub name : String
  pub price : ℕ
  pub currency : String

-- `productCurrencyAllowed`
abbrev pub product_currency_allowed : String → Bool
product_currency_allowed c = text_eq c "AUD" || text_eq c "USD" || text_eq c "INR"

-- the checks of one product of the loop over the products, and its snapshot
unfoldable pub snapshot_of : Product → Result OrderError PricingSnapshot
snapshot_of p = if not p.is_active then err inactive_product else elim p.unit_price_minor [
  | none ↦ err product_price_missing
  | some price ↦ elim p.currency_code [
    | none ↦ err product_price_missing
    | some currency ↦
        if product_currency_allowed currency
        then ok (record {
          product_id = p.id;
          sku = p.sku;
          name = p.name;
          price = price;
          currency = currency;
        })
        else err invalid_input
  ]
]

abbrev pub lift : {E A : Type 0} → Result E A → Tx E A
lift (ok a) = pure a
lift (err e) = throw e

-- the loop that locks the products: the snapshots by product
unfoldable pub lock_prices : ℕ → List ℕ → Map PricingSnapshot → Tx OrderError (Map PricingSnapshot)
unfolding snapshot_of
lock_prices organization [] prices = pure prices
lock_prices organization (id ∷ ids) prices = do
  product ← (λ db. or_throw (find_product organization id db) not_found db)
  snapshot ← lift (snapshot_of product)
  lock_prices organization ids (insert id snapshot prices)

-- A line of an order: a product, a quantity of it, and what is reserved for it of which levels.
pub record Line : Type 0 where
  pub product_id : ℕ
  pub quantity : ℤ
  pub reserves : List (ℕ × ℤ)

pub record PricedLine : Type 0 where
  pub line : Line
  pub snapshot : PricingSnapshot
  pub total : ℤ

-- the variables of the loop over the items: `orderCurrency`, `subtotal`, and `lineTotals` with the
-- snapshots
pub record Totals : Type 0 where
  pub currency : String
  pub subtotal : ℤ
  pub lines : List PricedLine

-- `*price != 0 && quantity > math.MaxInt64 / *price`
abbrev pub overflows_line : ℕ → ℤ → Bool
overflows_line price quantity = not (price == 0) && ltb_ℤ (pos (max_int64 / price)) quantity

-- one round of the loop over the items
unfoldable pub add_line : PricingSnapshot → Line → Totals → Result OrderError Totals
unfolding mul64 sub64 add64
add_line snapshot l t =
    let total = mul64 (pos snapshot.price) l.quantity in
    if not (text_eq t.currency "") && not (text_eq t.currency snapshot.currency)
    then err mixed_currency_order
    else if overflows_line snapshot.price l.quantity
    then err order_total_overflow
    else if ltb_ℤ (sub64 (pos max_int64) total) t.subtotal
    then err order_total_overflow
    else ok (record {
      currency = if text_eq t.currency "" then snapshot.currency else t.currency;
      subtotal = add64 t.subtotal total;
      lines = t.lines ++ record { line = l; snapshot = snapshot; total = total } ∷ [];
    })

-- the loop over the items
unfoldable pub total_lines : Map PricingSnapshot → List Line → Totals → Result OrderError Totals
unfolding add_line
total_lines prices [] t = ok t
total_lines prices (l ∷ ls) t = elim (lookup l.product_id prices) [
  | none ↦ err nil_dereference
  | some snapshot ↦ elim (add_line snapshot l t) [
    | err e ↦ err e
    | ok t' ↦ total_lines prices ls t'
  ]
]

abbrev pub no_totals : Totals
no_totals = record { currency = ""; subtotal = pos 0; lines = [] }
