-- ===== src/Pagination/Laws.antt =====
-- util/pagination/pagination.go: bounds of the normalised parameters, the offset as an int32, and
-- the count of pages as a rounded-up quotient.
use native.Mathlib.Nat.{div-add-mod, mod-lt, lt_of_mul-lt-mul_left}
use microservice_kit.Prelude.{
  ltb, ltb→lt, lt→ltb, if◌then◌else◌, ℕ, suc, ◌+◌, ◌*◌, ◌/◌, ◌%◌, ◌^◌, ◌≤◌, ◌<◌, ◌≡◌, ◌↔◌, true,
  List, arith,
}
use microservice_kit.Prelude.Int.{
  ℤ, pos, ◌+ℤ◌, ◌-ℤ◌, ◌*ℤ◌, ◌≤ℤ◌, ◌<ℤ◌, wrap32, wrap32_small, wrap32_high,
}
use microservice_kit.Pagination.{
  Pagination, new, offset, Result, total_pages, has_next, max_page_size,
}

-- For every request, the page is at least 1, and the page size lies in 1 to 100.
pub new_bounds :
    (page size : ℤ)
    → (pos 1 ≤ℤ (new page size).page)
      × (pos 1 ≤ℤ (new page size).page_size)
      × ((new page size).page_size ≤ℤ max_page_size)
unfolding new
new_bounds page size = (ground arith, ground arith, ground arith)

module _ (n s : ℕ) where
  -- The request for page n + 1 with pages of s items.
  abbrev pub at_page : Pagination
  at_page = record { page = pos (suc n); page_size = pos s }

  offset_product : n < 2 ^ 31 → offset at_page ≡ wrap32 (pos (n * s))
  unfolding offset ◌-ℤ◌ ◌*ℤ◌ wrap32
  offset_product h = ground arith

  -- The offset of page n + 1 with pages of s items is n * s where that fits an int32.
  pub offset_exact : n < 2 ^ 31 → n * s < 2 ^ 31 → offset at_page ≡ pos (n * s)
  offset_exact h k = rw (offset_product h) (wrap32_small (n * s) k)

  -- The offset of page n + 1 with pages of s items is below 0, though page and size are positive,
  -- where n * s lies from 2^31 to 2^32 - 1: the int32 product wraps around before it is widened.
  pub offset_overflow : n < 2 ^ 31 → 2 ^ 31 ≤ n * s → n * s < 2 ^ 32 → offset at_page <ℤ pos 0
  offset_overflow h k l = rw (offset_product h, wrap32_high (n * s) k l) (omega arith)

module _ {ℓ} {T : Type ℓ} (items : List T) (total page size : ℕ) where
  abbrev pub at_result : Result T
  at_result = record { items = items; total = pos total; page = pos page; page_size = pos size }

  -- the rounded-up quotient
  abbrev ceil_div : ℕ
  ceil_div = if ltb 0 (total % size) then total / size + 1 else total / size

  div-lt : 0 < size → 0 < total % size → total / size + 1 ≤ total
  div-lt h k = grind (arith, div-add-mod total size, mod-lt total h)

  ceil_div_bounds : 0 < size → (total ≤ ceil_div * size) × (ceil_div * size < total + size)
  ceil_div_bounds h = grind (arith, div-add-mod total size, mod-lt total h)

  total_pages-ceil_div : 0 < size → total < 2 ^ 31 → total_pages at_result ≡ pos ceil_div
  unfolding total_pages wrap32 ◌+ℤ◌
  total_pages-ceil_div h k = ground (arith, div-lt h)

  -- With a page size above 0 and a total of an int32, the count of pages is the least whose pages
  -- hold the total: `pages * size` reaches the total and exceeds it by less than one page.
  pub total_pages_quotient :
      0 < size
      → total < 2 ^ 31
      → (pages : ℕ) × (total_pages at_result ≡ pos pages)
        × (total ≤ pages * size)
        × (pages * size < total + size)
  total_pages_quotient h k =
      (ceil_div, total_pages-ceil_div h k, (ceil_div_bounds h).0, (ceil_div_bounds h).1)

  -- With a page size above 0 and a total of an int32, there is a next page exactly when items remain
  -- behind the current one.
  pub has_next_iff : 0 < size → total < 2 ^ 31 → (has_next at_result ≡ true) ↔ (page * size < total)
  unfolding has_next
  has_next_iff h k = rw (total_pages-ceil_div h k) (λ t. behind t, λ t. ahead t)
    where
      behind : ltb (page + 0) (ceil_div + 0) ≡ true → page * size < total
      behind t = grind (arith, ceil_div_bounds h, ltb→lt (page + 0) (ceil_div + 0) t)

      ahead : page * size < total → ltb (page + 0) (ceil_div + 0) ≡ true
      ahead t = lt→ltb (page + 0) (ceil_div + 0) (
          let before : page < ceil_div =
            lt_of_mul-lt-mul_left size (omega (arith, (ceil_div_bounds h).0)) in
          omega arith)
