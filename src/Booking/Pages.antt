-- ===== src/Booking/Pages.antt =====
-- The pages of a list of bookings.
use helloplanbuddy_cmd_plan.Base.{
  ℕ, zero, suc, ◌-◌, ◌*◌, ◌≤◌, ◌≡◌, sym, Option, none, some, List, [], ◌++◌, arith,
}
use helloplanbuddy_cmd_plan.Booking.Requests.{Parsed, nan, negative, natural, Page, page_of, slice}

injected : {p q : Page} → some p ≡ some q → p ≡ q
injected h = cc h

-- The page and the limit that a query is run with are within bounds, and its offset is that of the page.
pub page_bounds :
    (page limit : Parsed) (p : Page)
    → page_of page limit ≡ some p
    → (1 ≤ p.page) × ((p.limit ≤ 50) × (p.offset ≡ (p.page - 1) * p.limit))
unfolding page_of
page_bounds nan limit p h = cc
page_bounds (negative n) nan p h = cc
page_bounds (negative n) (negative m) p h = cc
page_bounds (negative n) (natural m) p h = rw (sym (injected h)) (ground arith)
page_bounds (natural n) nan p h = cc
page_bounds (natural n) (negative m) p h = cc
page_bounds (natural n) (natural m) p h = rw (sym (injected h)) (ground arith)

-- The rows of a request, none where the query fails.
abbrev pub rows_of_page {ℓ} : {A : Type ℓ} → Option Page → List A → List A
rows_of_page none rows = []
rows_of_page (some p) rows = slice p rows

-- The answers to the requests of the pages from n + 1 on, so many of them, one after the other, all with
-- the same limit in the query string.
unfoldable pub pages_from {ℓ} : {A : Type ℓ} → ℕ → ℕ → ℕ → List A → List A
pages_from limit n zero rows = []
pages_from limit n (suc count) rows =
    rows_of_page (page_of (natural (suc n)) (natural limit)) rows
    ++ pages_from limit (suc n) count rows
