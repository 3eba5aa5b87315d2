-- ===== src/Pagination/Tests.antt =====
-- Runs of the pagination code, and its theorems at concrete inputs.
use microservice_kit.Prelude.{ℕ, ◌*◌, ◌+◌, ◌≤◌, ◌<◌, ◌≡◌, refl, List, [], ◌∷◌, arith}
use microservice_kit.Prelude.Int.{pos, negsuc, ◌-ℤ◌, ◌*ℤ◌, wrap32}
use microservice_kit.Pagination.{new, offset, total_pages}
use microservice_kit.Pagination.Laws

abbrev items : List ℕ
items = 7 ∷ 8 ∷ []

normalized : new (negsuc 4) (pos 1000) ≡ record { page = pos 1; page_size = pos 100 }
unfolding new
normalized = refl

third_page : offset (new (pos 3) (pos 20)) ≡ pos 40
unfolding new offset wrap32 ◌-ℤ◌ ◌*ℤ◌
third_page = refl

total_pages_quotient_example :
    (pages : ℕ) × (total_pages (Laws.at_result items 45 2 20) ≡ pos pages)
    × (45 ≤ pages * 20)
    × (pages * 20 < 45 + 20)
total_pages_quotient_example = Laws.total_pages_quotient items 45 2 20 (omega arith) (omega arith)
