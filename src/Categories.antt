-- ===== src/Categories.antt =====
-- Categories and their subcategories: app/src/app/core/categories/tree.ts. `localeCompare` is a
-- parameter of the order, since it is the platform's.
pub mod Whole
mod Tests
use easy_docket.Base.{
  ℕ, Bool, true, false, not, ◌&&◌, Option, none, some, List, [], ◌∷◌, ◌++◌, map, if◌then◌else◌,
  filter, any, ◌==◌,
}
use easy_docket.Base.Int.{ℤ, pos, negsuc, leb_ℤ}
use easy_docket.Base.Text.{Text, eq_text}
use easy_docket.Models.Records.{Category, CategoryKind, income_category, expense_category}

-- `CategoryNode`
pub record CategoryNode : Type 0 where
  pub category : Category
  pub children : List Category

or_else : ℤ → ℤ → ℤ
or_else (pos n) b = if n == 0 then b else pos n
or_else (negsuc n) b = negsuc n

-- `compareCategories`
unfoldable pub compare_categories : (Text → Text → ℤ) → Category → Category → ℤ
unfolding or_else
compare_categories locale_compare a b =
    or_else (locale_compare a.name b.name) (locale_compare a.id b.id)

unfoldable pub insert_category : (Text → Text → ℤ) → Category → List Category → List Category
insert_category locale_compare c [] = c ∷ []
insert_category locale_compare c (d ∷ ds) =
    let rest = insert_category locale_compare c ds in
    if leb_ℤ (compare_categories locale_compare c d) (pos 0) then c ∷ (d ∷ ds) else d ∷ rest

-- `sort(compareCategories)`, which keeps the order of those that compare as equal.
unfoldable pub sort_categories : (Text → Text → ℤ) → List Category → List Category
sort_categories locale_compare [] = []
sort_categories locale_compare (c ∷ cs) =
    insert_category locale_compare c (sort_categories locale_compare cs)

unfoldable pub same_kind : CategoryKind → CategoryKind → Bool
same_kind income_category income_category = true
same_kind income_category expense_category = false
same_kind expense_category income_category = false
same_kind expense_category expense_category = true

-- `scope`
unfoldable pub in_scope : Option CategoryKind → List Category → List Category
in_scope none categories = categories
in_scope (some kind) categories = filter (λ c. same_kind c.kind kind) categories

-- `byId(...).get`: of two categories with one id the map has the later.
unfoldable pub find_category : Text → List Category → Option Category
find_category id [] = none
find_category id (c ∷ cs) =
    let rest = find_category id cs in
    elim rest [ some later ↦ some later | none ↦ if eq_text c.id id then some c else none ]

unfoldable pub lookup_parent : Option Text → List Category → Option Category
lookup_parent none scope = none
lookup_parent (some []) scope = none
lookup_parent (some (c ∷ id)) scope = find_category (c ∷ id) scope

-- A parent that is at the top level itself.
unfoldable pub top_level : Option Category → Option Category
top_level none = none
top_level (some parent) = elim parent.parent_id [ none ↦ some parent | some id ↦ none ]

-- The parent that a category is filed under.
unfoldable pub bucket_of : List Category → Category → Option Category
bucket_of scope c = top_level (lookup_parent c.parent_id scope)

unfoldable pub is_root : List Category → Category → Bool
is_root scope c = elim (bucket_of scope c) [ none ↦ true | some parent ↦ false ]

unfoldable pub is_child_of : List Category → Category → Category → Bool
is_child_of scope parent c = elim (bucket_of scope c) [
  | none ↦ false
  | some found ↦ eq_text found.id parent.id
]

unfoldable pub node_of : (Text → Text → ℤ) → List Category → Category → CategoryNode
node_of locale_compare scope c = record {
  category = c;
  children = sort_categories locale_compare (filter (is_child_of scope c) scope);
}

-- `buildTree` over the scope.
unfoldable pub tree_over : (Text → Text → ℤ) → List Category → List CategoryNode
tree_over locale_compare scope =
    map (node_of locale_compare scope)
      (sort_categories locale_compare (filter (is_root scope) scope))

-- `buildTree`
unfoldable pub build_tree :
    (Text → Text → ℤ) → List Category → Option CategoryKind → List CategoryNode
build_tree locale_compare categories kind = tree_over locale_compare (in_scope kind categories)

-- `rootIdOf` for a category that is known.
unfoldable pub root_id_in : List Category → Text → Category → Text
root_id_in categories id c = elim c.parent_id [
  | none ↦ id
  | some parent ↦ elim (lookup_parent (some parent) categories) [ none ↦ id | some found ↦ parent ]
]

-- `rootIdOf`
unfoldable pub root_id_of : Option Text → List Category → Option Text
root_id_of none categories = none
root_id_of (some id) categories = elim (find_category id categories) [
  | none ↦ some id
  | some c ↦ some (root_id_in categories id c)
]

unfoldable pub has_parent : Text → Category → Bool
has_parent id c = elim c.parent_id [ none ↦ false | some parent ↦ eq_text parent id ]

-- `descendantIds`
unfoldable pub descendant_ids : Text → List Category → List Text
descendant_ids id categories = map (λ c. c.id) (filter (has_parent id) categories)

-- Whether the parent of a category is in the set, an empty id being none.
unfoldable pub is_wanted : List Text → Category → Bool
is_wanted wanted c = elim c.parent_id [
  | none ↦ false
  | some parent ↦ not (eq_text parent []) && any (λ id. eq_text id parent) wanted
]

-- `withDescendants`, the set as a list.
unfoldable pub with_descendants : List Text → List Category → List Text
with_descendants wanted [] = wanted
with_descendants wanted (c ∷ cs) =
    with_descendants (if is_wanted wanted c then wanted ++ c.id ∷ [] else wanted) cs

-- `rootIds`, as the pairs of the map in the order they are set.
unfoldable pub root_ids : List Category → List (Text × Text)
root_ids categories =
    map (λ c. (c.id, elim (root_id_of (some c.id) categories) [ none ↦ c.id | some root ↦ root ]))
      categories
