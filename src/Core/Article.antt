-- ===== src/Core/Article.antt =====
-- crates/reader-core/src/article.rs: the identity of an article, its reading state, and how articles
-- of several sources merge and split.
pub mod States
pub mod Origins
use mathlib.Core.List.{flat_map}
use mathlib.Core.Option
use inoreader.Prelude.{
  ℕ, ◌≡◌, ◌↔◌, Bool, true, false, not, ◌&&◌, Option, none, some, List, [], ◌∷◌, ◌++◌, map, arith,
  Eq, ◌==◌, ◌!=◌, nat_eq, list_eq, option_eq, eq_of_==, ==_refl, if◌then◌else◌, next_u64, all, any,
  contains, leb,
}
use inoreader.Prelude.Text.{Text}
use inoreader.Prelude.Url.{UrlApi}

pub data ArticleLocation (Url : Type 0) : Type 0 where
  url : Text → Url → ArticleLocation Url
  source_record : ℕ → Text → ArticleLocation Url

pub record DedupKey (Url : Type 0) : Type 0 where
  pub location : ArticleLocation Url
  pub title : Text
  pub description : Option Text

pub record ArticleState : Type 0 where
  pub read : Bool
  pub later : Bool
  pub protect_unread : Bool

pub record Article (Url : Type 0) : Type 0 where
  pub id : ℕ
  pub key : DedupKey Url
  pub state : ArticleState
  pub first_arrived_at : ℕ
  pub origins : List ℕ
  pub revision : ℕ  -- u64

unfoldable pub exact_url : {Url : Type 0} → ArticleLocation Url → Option Text
exact_url (url exact fetch) = some exact
exact_url (source_record source_id upstream_id) = none

unfoldable pub fetch_url : {Url : Type 0} → ArticleLocation Url → Option Url
fetch_url (url exact fetch) = some fetch
fetch_url (source_record source_id upstream_id) = none

-- `From<Url> for ArticleLocation`
unfoldable pub from_url : (api : UrlApi) → api.Url → ArticleLocation api.Url
from_url api fetch = url (api.as_str fetch) fetch

-- `#[derive(PartialEq)]` of the location and of the key
module _ {Url : Type 0} ⦃e : Eq Url⦄ where
  unfoldable pub location_beq : ArticleLocation Url → ArticleLocation Url → Bool
  location_beq (url a f) (url b g) = a == b && f == g
  location_beq (source_record s u) (source_record t v) = s == t && u == v
  location_beq _ _ = false

  pub location_beq_iff : (a b : ArticleLocation Url) → (location_beq a b ≡ true) ↔ (a ≡ b)
  unfolding location_beq
  location_beq_iff (url a f) (url b g) =
      (λ h. ground (arith, eq_of_== a b, eq_of_== f g), λ p. ground (arith, ==_refl a, ==_refl f))
  location_beq_iff (source_record s u) (source_record t v) =
      (λ h. ground (arith, eq_of_== u v), λ p. ground (arith, ==_refl u))
  location_beq_iff (url a f) (source_record t v) = (λ h. cc, λ p. cc)
  location_beq_iff (source_record s u) (url b g) = (λ h. cc, λ p. cc)

  unfoldable pub key_beq : DedupKey Url → DedupKey Url → Bool
  key_beq a b =
      location_beq a.location b.location && a.title == b.title && a.description == b.description

  pub key_beq_iff : (a b : DedupKey Url) → (key_beq a b ≡ true) ↔ (a ≡ b)
  unfolding key_beq
  key_beq_iff a b = (
    λ h. ground (
      arith,
      (location_beq_iff a.location b.location).0,
      eq_of_== a.title b.title,
      eq_of_== a.description b.description,
    ),
    λ p.
        ground (
          arith,
          (location_beq_iff a.location b.location).1,
          ==_refl a.title,
          ==_refl a.description,
        ),
  )

-- The record of `ArticleState::merge`, over at least one state.
unfoldable pub merged_state : ArticleState → List ArticleState → ArticleState
unfolding all any
merged_state s ss = record {
  read = all (λ v. v.read) (s ∷ ss);
  later = any (λ v. v.later) (s ∷ ss);
  protect_unread = any (λ v. v.protect_unread) (s ∷ ss);
}

-- `ArticleState::merge`
unfoldable pub merge_states : List ArticleState → Option ArticleState
merge_states [] = none
merge_states (s ∷ ss) = some (merged_state s ss)

-- `if !origins.contains(&origin) { origins.push(origin) }`
unfoldable pub push_new : List ℕ → ℕ → List ℕ
push_new origins origin = if not (contains origins origin) then origins ++ origin ∷ [] else origins

-- The loop of `Article::merge` over the origins of all the articles.
unfoldable pub push_all : List ℕ → List ℕ → List ℕ
push_all origins [] = origins
push_all origins (o ∷ os) = push_all (push_new origins o) os

-- `iter().min()` over a list with a first element
unfoldable pub min_from : ℕ → List ℕ → ℕ
min_from m [] = m
min_from m (x ∷ xs) = min_from (if leb m x then m else x) xs

abbrev pub put_back : ℕ → Option (List ℕ) → Option (List ℕ)
put_back y none = none
put_back y (some r) = some (y ∷ r)

-- `iter().position(|v| *v == origin)` and `remove(index)` in one pass
unfoldable pub remove_first : ℕ → List ℕ → Option (List ℕ)
remove_first origin [] = none
remove_first origin (o ∷ os) =
    let rest = remove_first origin os in if o == origin then some os else put_back o rest

module _ {Url : Type 0} where
  unfoldable pub attach_origin : Article Url → ℕ → Article Url
  unfolding push_new
  attach_origin a origin =
      if not (contains a.origins origin)
      then record a { origins = a.origins ++ origin ∷ []; revision = next_u64 a.revision }
      else a

  -- The two branches of `detach_origin`.
  abbrev pub detached : Article Url → Option (List ℕ) → Article Url × Bool
  detached a (some rest) = (record a { origins = rest; revision = next_u64 a.revision }, true)
  detached a none = (a, false)

  unfoldable pub detach_origin : Article Url → ℕ → Article Url × Bool
  detach_origin a origin = detached a (remove_first origin a.origins)

  -- `split_with_keys`: the parts share the state and the arrival of the whole.
  unfoldable pub split_with_keys :
      Article Url → List (ℕ × DedupKey Url × List ℕ) → List (Article Url)
  split_with_keys a [] = []
  split_with_keys a ((id, key, origins) ∷ parts) =
      record {
        id = id;
        key = key;
        state = a.state;
        first_arrived_at = a.first_arrived_at;
        origins = origins;
        revision = 0;
      }
      ∷ split_with_keys a parts

module _ {Url : Type 0} ⦃e : Eq Url⦄ where
  -- `Article::merge`
  unfoldable pub merge : ℕ → List (Article Url) → Option (Article Url)
  unfolding key_beq merge_states push_all min_from any
  merge id [] = none
  merge id (a ∷ as_) =
      if any (λ b. not (key_beq b.key a.key)) (a ∷ as_)
      then none
      else Option.map
          (λ state. record {
            id = id;
            key = a.key;
            state = state;
            first_arrived_at = min_from a.first_arrived_at (map (λ b. b.first_arrived_at) as_);
            origins = push_all [] (flat_map (λ b. b.origins) (a ∷ as_));
            revision = 0;
          })
          (merge_states (map (λ b. b.state) (a ∷ as_)))
