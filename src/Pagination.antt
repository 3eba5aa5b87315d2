-- ===== src/Pagination.antt =====
-- util/pagination/pagination.go: page parameters, their normalisation, and the result page.
-- An int32 is a ℤ between -2^31 and 2^31 - 1. Arithmetic on it keeps its wrap-around written out;
-- the conversion to Go's 64-bit `int` changes no value.
mod Laws
mod Tests
use microservice_kit.Prelude.{Bool, if◌then◌else◌, ◌||◌, List}
use microservice_kit.Prelude.Int.{
  ℤ, pos, ◌+ℤ◌, ◌-ℤ◌, ◌*ℤ◌, ltb_ℤ, leb_ℤ, eqb_ℤ, quot_ℤ, rem_ℤ, wrap32,
}

-- `DefaultPage`, `DefaultPageSize`, `MaxPageSize`
abbrev pub default_page : ℤ
default_page = pos 1

abbrev pub default_page_size : ℤ
default_page_size = pos 20

abbrev pub max_page_size : ℤ
max_page_size = pos 100

pub record Pagination : Type 0 where
  pub page : ℤ
  pub page_size : ℤ

-- the three assignments of `normalize`, in order
pub normalize : Pagination → Pagination
normalize p =
    let page = if leb_ℤ p.page (pos 0) then default_page else p.page in
    let size = if leb_ℤ p.page_size (pos 0) then default_page_size else p.page_size in
    record { page = page; page_size = if ltb_ℤ max_page_size size then max_page_size else size }

pub new : ℤ → ℤ → Pagination
unfolding normalize
new page page_size = normalize (record { page = page; page_size = page_size })

-- the subtraction and the product are int32 operations
pub offset : Pagination → ℤ
offset p = wrap32 (wrap32 (p.page -ℤ pos 1) *ℤ p.page_size)

pub limit : Pagination → ℤ
limit p = p.page_size

pub record Result {ℓ} (T : Type ℓ) : Type ℓ where
  pub items : List T
  pub total : ℤ
  pub page : ℤ
  pub page_size : ℤ

module _ {ℓ} {T : Type ℓ} where
  pub new_result : List T → ℤ → Pagination → Result T
  new_result items total p = record {
    items = items;
    total = total;
    page = p.page;
    page_size = p.page_size;
  }

  pub total_pages : Result T → ℤ
  total_pages r =
      if eqb_ℤ r.total (pos 0) || eqb_ℤ r.page_size (pos 0)
      then pos 0
      else (let pages = wrap32 (quot_ℤ r.total r.page_size) in
          if ltb_ℤ (pos 0) (rem_ℤ r.total r.page_size) then wrap32 (pages +ℤ pos 1) else pages)

  pub has_next : Result T → Bool
  unfolding total_pages
  has_next r = ltb_ℤ r.page (total_pages r)

  pub has_prev : Result T → Bool
  has_prev r = ltb_ℤ (pos 1) r.page
