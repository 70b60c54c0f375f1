-- ===== src/Order/Exact.antt =====
-- The totals of an order do not wrap.
use native.Mathlib.Nat.{div-mul-le_self, mul-le-mul_left, mul_comm}
use mathlib.Core.Path.{subst}
use flowcart.Prelude.{
  ℕ, ◌≡◌, ◌≤◌, ◌+◌, ◌*◌, ◌/◌, sym, ap, ◌∙◌, inl, inr, false, List, [], ◌∷◌, ◌++◌, arith, All,
  Bool-cases, Option-cases, Result-cases, ℤ, pos, negsuc, pos_part, ◌<ℤ◌, max_int64, mul64,
  mul64_pos, add64, sub64, sub64_pos, add64_pos, ltb_ℤ, Map, lookup, ok, All-append,
  All-append_back, ◌==◌,
}
use flowcart.Order.Pricing.{
  PricingSnapshot, Line, PricedLine, Totals, overflows_line, add_line, total_lines,
}

-- A line's worth, as an unbounded number.
abbrev pub worth : PricedLine → ℕ
worth p = (p.snapshot).price * pos_part (p.line).quantity

abbrev pub worth_of : List PricedLine → ℕ
worth_of [] = 0
worth_of (p ∷ ps) = worth p + worth_of ps

abbrev pub AsksFor : PricedLine → Type 0
AsksFor p = pos 0 <ℤ (p.line).quantity

abbrev pub HasWorth : PricedLine → Type 0
HasWorth p = p.total ≡ pos (worth p)

line_worth_le : (price n : ℕ) → overflows_line price (pos n) ≡ false → price * n ≤ max_int64
line_worth_le price n h = elim (Bool-cases (price == 0)) [
  | inl e ↦ let none : price ≡ 0 = ground (arith, e) in rw none (omega arith)
  | inr e ↦
      let fits : n ≤ max_int64 / price = ground (arith, e, h) in
      omega (
        arith,
        mul-le-mul_left price fits,
        div-mul-le_self max_int64 price,
        mul_comm price (max_int64 / price),
      )
]

line_total_eq :
    (price : ℕ) (q : ℤ)
    → pos 0 <ℤ q
    → overflows_line price q ≡ false
    → (mul64 (pos price) q ≡ pos (price * pos_part q)) × (price * pos_part q ≤ max_int64)
line_total_eq price (pos n) positive h =
    let le = line_worth_le price n h in (mul64_pos price n le, le)
line_total_eq price (negsuc n) positive h = absurd (omega (arith, positive))

worth_of-append : (ps qs : List PricedLine) → worth_of (ps ++ qs) ≡ worth_of ps + worth_of qs
worth_of-append [] qs = omega arith
worth_of-append (p ∷ ps) qs = omega (arith, worth_of-append ps qs)

-- While every line asks for something, the subtotal is the sum of the lines' worth.
abbrev pub IsExact : Totals → Type 0
IsExact t =
    All AsksFor t.lines
    → (t.subtotal ≡ pos (worth_of t.lines)) × (worth_of t.lines ≤ max_int64) × All HasWorth t.lines

-- What a round of the loop over the items did.
record IsAdded (s : PricingSnapshot) (l : Line) (t t' : Totals) : Type 0 where
  fits : overflows_line s.price l.quantity ≡ false
  room : ltb_ℤ (sub64 (pos max_int64) (mul64 (pos s.price) l.quantity)) t.subtotal ≡ false
  total : t'.subtotal ≡ add64 t.subtotal (mul64 (pos s.price) l.quantity)
  lines :
      t'.lines
      ≡ t.lines ++ record { line = l; snapshot = s; total = mul64 (pos s.price) l.quantity } ∷ []

add_line-IsAdded :
    (s : PricingSnapshot) (l : Line) (t t' : Totals) → add_line s l t ≡ ok t' → IsAdded s l t t'
unfolding add_line
add_line-IsAdded s l t t' h = record {
  fits = ground (arith, h);
  room = ground (arith, h);
  total = ground (arith, h);
  lines = ground (arith, h);
}

add_line-IsExact :
    (s : PricingSnapshot) (l : Line) (t t' : Totals) → IsExact t → IsAdded s l t t' → IsExact t'
add_line-IsExact s l t t' exact a = rw a.lines (λ asks.
    let new : PricedLine = record {
      line = l;
      snapshot = s;
      total = mul64 (pos s.price) l.quantity;
    } in
    let w = s.price * pos_part l.quantity in
    let (front, back) = All-append_back AsksFor t.lines (new ∷ []) asks in
    let (total, small, worths) = exact front in
    let (line, fits) = line_total_eq s.price l.quantity back.0 a.fits in
    let room : worth_of t.lines + w ≤ max_int64 =
      let roomy = rw (line, sub64_pos max_int64 w fits (omega arith), total) at a.room in
      ground (arith, roomy, fits) in
    let sum : worth_of (t.lines ++ new ∷ []) ≡ worth_of t.lines + w =
      omega (arith, worth_of-append t.lines (new ∷ [])) in
    (
      a.total
          ∙ ap (λ z. add64 z (mul64 (pos s.price) l.quantity)) total
          ∙ ap (add64 (pos (worth_of t.lines))) line
          ∙ add64_pos (worth_of t.lines) w room
          ∙ ap pos (sym sum),
      omega (arith, sum, room),
      All-append HasWorth t.lines (new ∷ []) worths (line, tt),
    ))

pub total_lines-IsExact :
    (prices : Map PricingSnapshot) (ls : List Line) (t t' : Totals)
    → IsExact t
    → total_lines prices ls t ≡ ok t'
    → IsExact t'
unfolding total_lines
total_lines-IsExact prices [] t t' exact h =
    let same : t ≡ t' = ground (arith, h) in subst IsExact same exact
total_lines-IsExact prices (l ∷ ls) t t' exact h =
    elim (Option-cases (lookup l.product_id prices)) [
      | inl e ↦ absurd (ground (arith, e, h))
      | inr (s, e) ↦ elim (Result-cases (add_line s l t)) [
        | inl (x, f) ↦ absurd (ground (arith, e, f, h))
        | inr (mid, f) ↦
            total_lines-IsExact prices ls mid t'
              (add_line-IsExact s l t mid exact (add_line-IsAdded s l t mid f))
              (ground (arith, e, f, h))
      ]
    ]
