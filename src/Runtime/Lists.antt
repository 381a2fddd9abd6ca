-- ===== src/Runtime/Lists.antt =====
-- Lists of node ids without repetition (src/core/runtime/runtime_service.py).
use agent_roles.Common.{
  String, ◌≡◌, refl, true, ◌||◌, List, [], ◌∷◌, elem, is_unique, arith, append_new,
  append_new_unique, elem-append_new,
}

-- `_merge_unique`
unfoldable pub merge_unique : List String → List String → List String
merge_unique merged [] = merged
merge_unique merged (item ∷ items) = merge_unique (append_new merged item) items

-- The loop of `_dedupe`. The set `seen` holds what `ordered` holds.
unfoldable pub dedupe_onto : List String → List String → List String
dedupe_onto ordered [] = ordered
dedupe_onto ordered (item ∷ items) = dedupe_onto (append_new ordered item) items

-- `_dedupe`
unfoldable pub dedupe : List String → List String
dedupe items = dedupe_onto [] items

pub elem-merge_unique :
    (a : String) (xs ys : List String) → elem a (merge_unique xs ys) ≡ (elem a xs || elem a ys)
unfolding merge_unique
elem-merge_unique a xs [] = ground arith
elem-merge_unique a xs (y ∷ ys) =
    ground (arith, elem-merge_unique a (append_new xs y) ys, elem-append_new a xs y)

pub is_unique-merge_unique :
    (xs ys : List String) → is_unique xs ≡ true → is_unique (merge_unique xs ys) ≡ true
unfolding merge_unique
is_unique-merge_unique xs [] u = u
is_unique-merge_unique xs (y ∷ ys) u =
    is_unique-merge_unique (append_new xs y) ys (append_new_unique xs y u)

elem-dedupe_onto :
    (a : String) (xs ys : List String) → elem a (dedupe_onto xs ys) ≡ (elem a xs || elem a ys)
unfolding dedupe_onto
elem-dedupe_onto a xs [] = ground arith
elem-dedupe_onto a xs (y ∷ ys) =
    ground (arith, elem-dedupe_onto a (append_new xs y) ys, elem-append_new a xs y)

is_unique-dedupe_onto :
    (xs ys : List String) → is_unique xs ≡ true → is_unique (dedupe_onto xs ys) ≡ true
unfolding dedupe_onto
is_unique-dedupe_onto xs [] u = u
is_unique-dedupe_onto xs (y ∷ ys) u =
    is_unique-dedupe_onto (append_new xs y) ys (append_new_unique xs y u)

pub elem-dedupe : (a : String) (xs : List String) → elem a (dedupe xs) ≡ elem a xs
unfolding dedupe
elem-dedupe a xs = elem-dedupe_onto a [] xs

pub is_unique-dedupe : (xs : List String) → is_unique (dedupe xs) ≡ true
unfolding dedupe
is_unique-dedupe xs = is_unique-dedupe_onto [] xs refl
