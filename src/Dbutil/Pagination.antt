-- ===== src/Dbutil/Pagination.antt =====
-- dbutil/pagination.go: Pagination.
use xutils.Prelude.{
  ℕ, ◌-◌, ◌*◌, ◌%◌, ◌≤◌, ◌<◌, Bool, true, false, ◌&&◌, Option, none, some, ◌==◌, ltb, if◌then◌else◌,
  ◌≡◌, ◌↔◌, arith, ap, ◌∙◌, ◌⊎◌,
}

pub data PageError : Type 0 where
  zero_page zero_size : PageError
  -- the page size is greater than the limit given
  too_large : ℕ → PageError

pub data PageResult : Type 0 where
  -- limit and offset
  page_at : ℕ → ℕ → PageResult
  refused : PageError → PageResult

-- `*pageSize`, or 100
abbrev pub size_of : Option ℕ → ℕ
size_of none = 100
size_of (some n) = n

-- `(*page - 1) * limit` of two uint32
unfoldable pub offset_of : Option ℕ → ℕ → ℕ
offset_of none limit = 0
offset_of (some page) limit = (page - 1) * limit % 4294967296

abbrev pub is_zero_page : Option ℕ → Bool
is_zero_page none = false
is_zero_page (some page) = page == 0

-- Pagination; `max_limit` is that of WithMaxLimit, 0 where it is not given
unfoldable pub pagination : Option ℕ → Option ℕ → ℕ → PageResult
unfolding offset_of
pagination page size max_limit =
    if is_zero_page page
    then refused zero_page
    else if ltb (size_of size) 1
    then refused zero_size
    else if ltb 0 max_limit && ltb max_limit (size_of size)
    then refused (too_large max_limit)
    else page_at (size_of size) (offset_of page (size_of size))

-- `*page`, or 1
abbrev pub number_of : Option ℕ → ℕ
number_of none = 1
number_of (some page) = page

abbrev pub is_page : PageResult → Bool
is_page (page_at l o) = true
is_page (refused e) = false

pagination_accepts :
    (page size : Option ℕ) (max_limit : ℕ)
    → (is_page (pagination page size max_limit) ≡ true)
      ↔ ((1 ≤ number_of page) × (1 ≤ size_of size) × ((max_limit ≡ 0) ⊎ (size_of size ≤ max_limit)))
unfolding pagination
pagination_accepts none size max_limit = (λ h. ground (arith, h), λ h. ground (arith, h))
pagination_accepts (some page) size max_limit = (λ h. ground (arith, h), λ h. ground (arith, h))

offset_exact :
    (page : Option ℕ) (limit : ℕ)
    → (number_of page - 1) * limit < 4294967296
    → offset_of page limit ≡ (number_of page - 1) * limit
unfolding offset_of
offset_exact none limit h = omega arith
offset_exact (some page) limit h = omega (arith, h)

accepted :
    (page size : Option ℕ) (max_limit : ℕ)
    → is_page (pagination page size max_limit) ≡ true
    → pagination page size max_limit ≡ page_at (size_of size) (offset_of page (size_of size))
unfolding pagination
accepted page size max_limit h = ground (arith, h)

-- As long as the offset is a uint32: Pagination gives the page whose limit is the size, 100 by default,
-- and whose offset is (number - 1) * size, so that consecutive pages neither overlap nor leave a gap,
-- exactly if the number and the size are at least 1 and the size is within the limit, where there is one.
pub pagination_pages :
    (page size : Option ℕ) (max_limit : ℕ)
    → (number_of page - 1) * size_of size < 4294967296
    → (pagination page size max_limit
        ≡ page_at (size_of size) ((number_of page - 1) * size_of size))
      ↔ ((1 ≤ number_of page) × (1 ≤ size_of size) × ((max_limit ≡ 0) ⊎ (size_of size ≤ max_limit)))
pagination_pages page size max_limit small = (
  λ e. (pagination_accepts page size max_limit).0 (ap is_page e),
  λ h.
      accepted page size max_limit ((pagination_accepts page size max_limit).1 h)
      ∙ ap (page_at (size_of size)) (offset_exact page (size_of size) small),
)
