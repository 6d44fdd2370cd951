-- ===== src/Dbutil/Examples.antt =====
-- The theorems on the package dbutil/ at concrete pages.
use xutils.Prelude.{ℕ, ◌*◌, ◌≤◌, some, ◌≡◌, refl, ◌↔◌, arith, ◌⊎◌}
use xutils.Dbutil.Pagination.{pagination, page_at, pagination_pages}

pagination_pages_example :
    (pagination (some 3) (some 20) 50 ≡ page_at 20 (2 * 20))
    ↔ ((1 ≤ 3) × (1 ≤ 20) × ((◌≡◌ {A = ℕ} 50 0) ⊎ (20 ≤ 50)))
pagination_pages_example = pagination_pages (some 3) (some 20) 50 (omega arith)

-- A late page has the offset of the first one.
wrapped_offset : pagination (some 1073741825) (some 4) 0 ≡ pagination (some 1) (some 4) 0
unfolding pagination
wrapped_offset = refl
