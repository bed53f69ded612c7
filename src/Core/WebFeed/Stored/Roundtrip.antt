-- ===== src/Core/WebFeed/Stored/Roundtrip.antt =====
-- A recipe that the constructors accepted is read back from its stored form.
use inoreader.Prelude.{
  ℕ, ◌≡◌, refl, Option, none, some, List, [], ◌∷◌, map, map_option, ok, traverse, transpose,
  OptionAll, All, All-map, traverse-map, transpose-map_option,
}
use inoreader.Prelude.Text.{Text}
use inoreader.Prelude.Url.{UrlApi, Serializes}
use inoreader.Core.WebFeed.{
  SyntaxApi, WebSelector, css_selector, WebFeedActions, WebExtraction, WebFeedRecipe,
  new_extraction,
}
use inoreader.Core.WebFeed.Checked.{
  IsSelector, IsCss, IsExtraction, IsRecipe, IsBudgeted, IsBudgeted-new_actions,
}
use inoreader.Core.WebFeed.Stored.{
  store_selector, store_actions, store_extraction, store_recipe, css_expression, load_selector,
  load_css, load_url, load_actions, load_extraction, load_recipe,
}

OptionAll-map {ℓ κ} :
    {A : Type ℓ} {P Q : A → Type κ}
    → ((a : A) → P a → Q a)
    → (o : Option A) → OptionAll P o
    → OptionAll Q o
OptionAll-map f none h = tt
OptionAll-map f (some a) h = f a h

each-OptionAll {ℓ κ} :
    {A : Type ℓ} (P : A → Type κ) → ((a : A) → P a) → (o : Option A) → OptionAll P o
each-OptionAll P each none = tt
each-OptionAll P each (some a) = each a

each-All {ℓ κ} : {A : Type ℓ} (P : A → Type κ) → ((a : A) → P a) → (xs : List A) → All P xs
each-All P each [] = tt
each-All P each (x ∷ xs) = (each x, each-All P each xs)

module _ (syntax : SyntaxApi) where
  load_selector-IsSelector :
      (s : WebSelector) → IsSelector syntax s → load_selector syntax (store_selector s) ≡ ok s
  unfolding load_selector
  load_selector-IsSelector s h = rw h

  -- The two steps by which a CSS selector of an extraction is read back.
  load_css-OptionAll :
      (o : Option WebSelector)
      → OptionAll (IsCss syntax) o
      → (load_css syntax o ≡ ok (map_option (λ s. s.expression) o))
        × (css_selector syntax (map_option (λ s. s.expression) o) ≡ ok o)
  unfolding load_css css_selector css_expression
  load_css-OptionAll none h = (refl, refl)
  load_css-OptionAll (some s) h = (rw h.1, rw (← h.1) (rw h.0))

module _ (api : UrlApi) (syntax : SyntaxApi) (url_message : Text → Text)
    (back : Serializes api) where
  open api use {Url, parse, as_str}

  load_url-as_str : (u : Url) → load_url api syntax url_message (as_str u) ≡ ok u
  unfolding load_url
  load_url-as_str u = rw (back u)

  load_selectors :
      (xs : List WebSelector)
      → All (IsSelector syntax) xs
      → traverse (load_selector syntax) (map store_selector xs) ≡ ok xs
  load_selectors xs h =
      traverse-map (load_selector syntax) store_selector xs
        (All-map (load_selector-IsSelector syntax) xs h)

  load_option :
      (o : Option WebSelector)
      → OptionAll (IsSelector syntax) o
      → transpose (load_selector syntax) (map_option store_selector o) ≡ ok o
  load_option o h =
      transpose-map_option (load_selector syntax) store_selector o
        (OptionAll-map (load_selector-IsSelector syntax) o h)

  load_pages : (us : List Url) → traverse (load_url api syntax url_message) (map as_str us) ≡ ok us
  load_pages us =
      traverse-map (load_url api syntax url_message) as_str us
        (each-All (λ u. load_url api syntax url_message (as_str u) ≡ ok u) load_url-as_str us)

  load_listing :
      (o : Option Url) → transpose (load_url api syntax url_message) (map_option as_str o) ≡ ok o
  load_listing o =
      transpose-map_option (load_url api syntax url_message) as_str o
        (each-OptionAll (λ u. load_url api syntax url_message (as_str u) ≡ ok u) load_url-as_str o)

  load_actions-store_actions :
      (a : WebFeedActions Url) {max_pages max_actions : ℕ}
      → All (IsSelector syntax) a.hide_overlays
      → OptionAll (IsSelector syntax) a.next_page
      → OptionAll (IsSelector syntax) a.load_more
      → IsBudgeted max_pages max_actions a
      → load_actions api syntax url_message (store_actions api a) ≡ ok a
  unfolding load_actions
  load_actions-store_actions a overlays next more budget = rw (
    load_selectors a.hide_overlays overlays,
    load_pages a.start_pages,
    load_option a.next_page next,
    load_option a.load_more more,
    IsBudgeted-new_actions a budget,
  )

  load_extraction-store_extraction :
      (x : WebExtraction Url)
      → IsExtraction syntax x
      → load_extraction api syntax url_message (store_extraction api x) ≡ ok x
  unfolding load_extraction new_extraction
  load_extraction-store_extraction x h =
      let plain = λ (o : Option WebSelector) (p : OptionAll (IsCss syntax) o).
        load_option o (OptionAll-map (λ s q. q.0) o p) in
      rw (
        load_listing x.listing_url,
        plain x.card_selector h.card,
        plain x.title_selector h.title,
        plain x.date_selector h.date,
        plain x.content_selector h.content,
        plain x.wait_selector h.wait,
        (load_css-OptionAll syntax x.card_selector h.card).0,
        (load_css-OptionAll syntax x.title_selector h.title).0,
        (load_css-OptionAll syntax x.date_selector h.date).0,
        (load_css-OptionAll syntax x.content_selector h.content).0,
        (load_css-OptionAll syntax x.wait_selector h.wait).0,
        h.pattern,
        (load_css-OptionAll syntax x.card_selector h.card).1,
        (load_css-OptionAll syntax x.title_selector h.title).1,
        (load_css-OptionAll syntax x.date_selector h.date).1,
        (load_css-OptionAll syntax x.content_selector h.content).1,
        (load_css-OptionAll syntax x.wait_selector h.wait).1,
      )

  pub load_recipe-IsRecipe :
      (r : WebFeedRecipe Url) {max_pages max_actions : ℕ}
      → IsRecipe syntax r
      → IsBudgeted max_pages max_actions r.actions
      → load_recipe api syntax url_message (store_recipe api r) ≡ ok r
  unfolding load_recipe
  load_recipe-IsRecipe r h budget = rw (
    load_selector-IsSelector syntax r.selector h.selector,
    load_actions-store_actions r.actions h.overlays h.next h.load_more budget,
    load_extraction-store_extraction r.extraction h.extraction,
    h.configured_ok,
  )
