-- ===== src/Categories/Whole.antt =====
-- The tree of app/src/app/core/categories/tree.ts holds each category once.
use easy_docket.Base.{
  ◌≡◌, inl, inr, refl, sym, ap, ◌∙◌, Bool, true, false, Option, none, some, List, [], ◌∷◌, map,
  if◌then◌else◌, filter, In, In-filter, arith, Option-cases,
}
use easy_docket.Base.Int.{ℤ, pos, ◌+ℤ◌, leb_ℤ}
use easy_docket.Base.Int.Laws.{plus_zero, zero_plus, plus_assoc, plus_comm}
use easy_docket.Base.Int.Sums.{sum_by, when, sum_by_zero, sum_by-+ℤ, sum_by_parts}
use easy_docket.Base.Int.Keyed.{DistinctIds, once, In-ids, DistinctIds-filter}
use easy_docket.Base.Text.{Text, eq_text}
use easy_docket.Models.Records.{Category, CategoryKind}
use easy_docket.Categories.{
  CategoryNode, compare_categories, insert_category, sort_categories, in_scope, find_category,
  lookup_parent, top_level, bucket_of, is_root, is_child_of, node_of, tree_over, build_tree,
}

abbrev pub category_id : Category → Text
category_id c = c.id

module _ (locale_compare : Text → Text → ℤ) (w : Category → ℤ) where
  swap_first : (a b r : ℤ) → b +ℤ (a +ℤ r) ≡ a +ℤ (b +ℤ r)
  swap_first a b r = sym (plus_assoc b a r) ∙ ap (λ x. x +ℤ r) (plus_comm b a) ∙ plus_assoc a b r

  insert_sum :
      (c : Category) (cs : List Category)
      → sum_by w (insert_category locale_compare c cs) ≡ w c +ℤ sum_by w cs
  unfolding insert_category
  insert_sum c [] = refl
  insert_sum c (d ∷ ds) =
      cases (leb_ℤ (compare_categories locale_compare c d) (pos 0)) (insert_sum c ds)
    where
      cases :
          (b : Bool)
          → sum_by w (insert_category locale_compare c ds) ≡ w c +ℤ sum_by w ds
          → sum_by w (if b then c ∷ (d ∷ ds) else d ∷ insert_category locale_compare c ds)
            ≡ w c +ℤ (w d +ℤ sum_by w ds)
      cases true h = refl
      cases false h = ap (λ x. w d +ℤ x) h ∙ swap_first (w c) (w d) (sum_by w ds)

  pub sort_sum : (cs : List Category) → sum_by w (sort_categories locale_compare cs) ≡ sum_by w cs
  unfolding sort_categories
  sort_sum [] = refl
  sort_sum (c ∷ cs) =
      insert_sum c (sort_categories locale_compare cs) ∙ ap (λ x. w c +ℤ x) (sort_sum cs)

find_category-In :
    (id : Text) (cs : List Category) (c : Category) → find_category id cs ≡ some c → In c cs
unfolding find_category
find_category-In id [] c h = cc
find_category-In id (x ∷ cs) c h = elim (Option-cases (find_category id cs)) [
  | inl e ↦ let same : x ≡ c = ground arith in inl (sym same)
  | inr (k, e) ↦
      let same : k ≡ c = ground arith in inr (find_category-In id cs c (e ∙ ap some same))
]

lookup_parent-In :
    (o : Option Text) (cs : List Category) (c : Category) → lookup_parent o cs ≡ some c → In c cs
unfolding lookup_parent
lookup_parent-In none cs c h = cc
lookup_parent-In (some []) cs c h = cc
lookup_parent-In (some (x ∷ id)) cs c h = find_category-In (x ∷ id) cs c h

top_level_lem :
    (o : Option Category) (f : Category)
    → top_level o ≡ some f
    → (o ≡ some f) × (f.parent_id ≡ none)
unfolding top_level
top_level_lem none f h = cc
top_level_lem (some p) f h = elim (Option-cases p.parent_id) [
  | inl e ↦
      let same : p ≡ f = ground arith in
      (ap some same, ap (λ (x : Category). x.parent_id) (sym same) ∙ e)
  | inr (id, e) ↦ ground (arith, e)
]

-- The parent that a category is filed under is one of the roots.
bucket_of-root :
    (scope : List Category) (c f : Category)
    → bucket_of scope c ≡ some f
    → In f (filter (is_root scope) scope)
unfolding bucket_of is_root lookup_parent top_level
bucket_of-root scope c f h =
    let (found, top) = top_level_lem (lookup_parent c.parent_id scope) f h in
    In-filter (is_root scope) f scope (lookup_parent-In c.parent_id scope f found) (rw top refl)

-- The sum over what a node holds.
abbrev pub node_sum : (Category → ℤ) → CategoryNode → ℤ
node_sum w n = w n.category +ℤ sum_by w n.children

module _ (locale_compare : Text → Text → ℤ) (w : Category → ℤ) (scope : List Category) where
  roots : List Category
  roots = filter (is_root scope) scope

  -- A category is at the top level, or a child of one category there.
  one_node :
      DistinctIds category_id scope
      → (c : Category)
      → sum_by (λ g. when (is_child_of scope g c) (w c)) roots +ℤ when (is_root scope c) (w c) ≡ w c
  unfolding is_child_of is_root roots
  one_node apart c = by_bucket (bucket_of scope c) refl
    where
      by_bucket :
          (o : Option Category)
          → bucket_of scope c ≡ o
          → sum_by
                (λ g. when (elim o [ none ↦ false | some f ↦ eq_text f.id g.id ]) (w c))
                (filter (is_root scope) scope)
              +ℤ when (elim o [ none ↦ true | some f ↦ false ]) (w c)
            ≡ w c
      by_bucket none e =
          ap (λ x. x +ℤ w c) (sum_by_zero (λ g. pos 0) (λ g. refl) (filter (is_root scope) scope))
          ∙ zero_plus (w c)
      by_bucket (some f) e =
          plus_zero _
          ∙ once category_id f.id (w c) (filter (is_root scope) scope)
              (DistinctIds-filter category_id (is_root scope) scope apart)
              (In-ids category_id f (filter (is_root scope) scope) (bucket_of-root scope c f e))

  nodes_sum :
      (cs : List Category)
      → sum_by (node_sum w) (map (node_of locale_compare scope) cs)
        ≡ sum_by (λ g. w g +ℤ sum_by w (filter (is_child_of scope g) scope)) cs
  unfolding node_of
  nodes_sum [] = refl
  nodes_sum (c ∷ cs) = λ i.
      (w c +ℤ sort_sum locale_compare w (filter (is_child_of scope c) scope) i) +ℤ nodes_sum cs i

  tree_over-sum :
      DistinctIds category_id scope
      → sum_by (node_sum w) (tree_over locale_compare scope) ≡ sum_by w scope
  unfolding tree_over
  tree_over-sum apart =
      let each : Category → ℤ = λ g. w g +ℤ sum_by w (filter (is_child_of scope g) scope) in
      nodes_sum (sort_categories locale_compare (filter (is_root scope) scope))
      ∙ sort_sum locale_compare each (filter (is_root scope) scope)
      ∙ sum_by-+ℤ w (λ g. sum_by w (filter (is_child_of scope g) scope))
          (filter (is_root scope) scope)
      ∙ plus_comm _ _
      ∙ unfold roots in
        sum_by_parts (is_child_of scope) (is_root scope) w (filter (is_root scope) scope)
          (one_node apart) scope

-- Where no two categories have one id, any sum over the tree, the top-level categories and their children
-- together, is the sum over the categories of the kind: the tree holds each of them just once, orphans
-- and children of children included.
pub build_tree-total :
    (locale_compare : Text → Text → ℤ) (w : Category → ℤ) (categories : List Category)
    (kind : Option CategoryKind)
    → DistinctIds category_id (in_scope kind categories)
    → sum_by (node_sum w) (build_tree locale_compare categories kind)
      ≡ sum_by w (in_scope kind categories)
unfolding build_tree
build_tree-total locale_compare w categories kind apart =
    tree_over-sum locale_compare w (in_scope kind categories) apart
