-- ===== src/Core/Article/States.antt =====
-- How the reading states of merged articles combine.
use mathlib.Core.Logic.{∥∥₁_elim}
use mathlib.Core.List.{Perm, Permᴰ}
use inoreader.Prelude.{
  ◌≡◌, refl, true, Option, none, some, List, [], ◌∷◌, ◌++◌, arith, all, any, all-append, any-append,
  all-perm, any-perm, if◌then◌else◌,
}
use inoreader.Core.Article.{ArticleState, merge_states, merged_state}

-- Merging two groups and then their results is merging all the articles at once.
merge_states-regroup :
    (xs ys : List ArticleState) {a b : ArticleState}
    → merge_states xs ≡ some a
    → merge_states ys ≡ some b
    → merge_states (xs ++ ys) ≡ merge_states (a ∷ b ∷ [])
unfolding merge_states merged_state
merge_states-regroup [] ys h k = cc
merge_states-regroup (x ∷ xs) [] h k = cc
merge_states-regroup (x ∷ xs) (y ∷ ys) h k = ground (
  arith,
  all-append (λ v. v.read) xs (y ∷ ys),
  any-append (λ v. v.later) xs (y ∷ ys),
  any-append (λ v. v.protect_unread) xs (y ∷ ys),
)

abbrev fields : List ArticleState → ArticleState
fields ss = record {
  read = all (λ v. v.read) ss;
  later = any (λ v. v.later) ss;
  protect_unread = any (λ v. v.protect_unread) ss;
}

merge_states-fields :
    (ss : List ArticleState)
    → merge_states ss ≡ (if any (λ _. true) ss then some (fields ss) else none)
unfolding merge_states merged_state
merge_states-fields [] = refl
merge_states-fields (s ∷ ss) = refl

merge_states-permᴰ : {xs ys : List ArticleState} → Permᴰ xs ys → merge_states xs ≡ merge_states ys
merge_states-permᴰ {xs} {ys} h = rw (
  merge_states-fields xs,
  merge_states-fields ys,
  all-perm (λ v. v.read) h,
  any-perm (λ v. v.later) h,
  any-perm (λ v. v.protect_unread) h,
  any-perm (λ _. true) h,
)

-- The merged state does not depend on the order of the articles.
merge_states-perm : {xs ys : List ArticleState} → Perm xs ys → merge_states xs ≡ merge_states ys
merge_states-perm {xs} {ys} h =
    ∥∥₁_elim h (option_set (merge_states xs) (merge_states ys)) merge_states-permᴰ
  where
    option_set : IsSet (Option ArticleState)
    option_set = hlevel
