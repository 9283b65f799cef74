-- ===== src/Categories/Tests.antt =====
-- A tree of app/src/app/core/categories/tree.ts with a child and an orphan.
use easy_docket.Base.{◌≡◌, Option, none, some, List, [], ◌∷◌, arith, false}
use easy_docket.Base.Int.{ℤ, pos, ◌+ℤ◌}
use easy_docket.Base.Int.Sums.{sum_by}
use easy_docket.Base.Int.Keyed.{DistinctIds}
use easy_docket.Base.Text.{Text, codes}
use easy_docket.Models.Records.{Category, expense_category}
use easy_docket.Categories.{in_scope, build_tree}
use easy_docket.Categories.Whole.{category_id, node_sum, build_tree-total}

abbrev category_under : Option Text → Text → Category
category_under parent id = record {
  id = id;
  name = id;
  kind = expense_category;
  parent_id = parent;
  colour = [];
  icon = [];
  archived = false;
  created_at = 0;
  updated_at = [];
}

abbrev some_categories : List Category
some_categories =
    category_under (some (codes "a")) (codes "b")
    ∷ category_under none (codes "a")
    ∷ category_under (some (codes "z")) (codes "c")
    ∷ []

abbrev all_equal : Text → Text → ℤ
all_equal s t = pos 0

some_categories-DistinctIds : DistinctIds category_id some_categories
some_categories-DistinctIds = ground arith

build_tree-total_example :
    sum_by (node_sum (λ c. pos 1)) (build_tree all_equal some_categories none) ≡ pos 3
unfolding ◌+ℤ◌ in_scope
build_tree-total_example =
    build_tree-total all_equal (λ c. pos 1) some_categories none some_categories-DistinctIds
