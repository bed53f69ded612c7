-- ===== src/Core/WebFeed/Draft.antt =====
-- crates/reader-core/src/web_feed.rs, `WebFeedRecipeDraft` and `PreparedWebFeed`: from the texts that
-- an author sends to a checked recipe, within the configured limits.

pub mod Accepted
use inoreader.Prelude.{
  unwrap_or, is_some, ℕ, Bool, true, false, not, ◌&&◌, ◌||◌, Option, none, some, List, [], ◌∷◌,
  arith, ◌==◌, nat_eq, list_eq, if◌then◌else◌, ltb, Result, ok, err, ◌>>=◌, ◌>>◌, refuse_if, ok_or,
  map_err, traverse, transpose,
}
use inoreader.Prelude.Text.{Text, codes}
use inoreader.Prelude.Url.{UrlApi}
use inoreader.Core.WebFeed.{
  SyntaxApi, WebLoading, automatic, static, browser, SelectorLanguage, css, xpath, WebSelector,
  WebViewport, desktop, mobile, WebFeedActions, WebExtraction, WebFeedRecipe, to_string,
  new_selector, new_actions, new_extraction, configured,
}

pub record SelectorDraft : Type 0 where
  pub language : Text
  pub expression : Text

pub record WebFeedRecipeDraft : Type 0 where
  pub workspace_id : ℕ
  pub url : Text
  pub selector : Text
  pub loading : Text
  pub preview : Option Bool
  pub selector_language : Option Text
  pub viewport : Option Text
  pub listing_url : Option Text
  pub card_selector : Option Text
  pub title_selector : Option Text
  pub date_selector : Option Text
  pub content_selector : Option Text
  pub wait_selector : Option Text
  pub url_pattern : Option Text
  pub max_pages : Option ℕ
  pub hide_overlays : List SelectorDraft
  pub start_pages : List Text
  pub next_page : Option SelectorDraft
  pub load_more : Option SelectorDraft
  pub load_more_clicks : ℕ
  pub scrolls : ℕ

unfoldable pub loading_of : Text → Result Text WebLoading
loading_of t =
    if t == codes "automatic"
    then ok automatic
    else if t == codes "static"
    then ok static
    else if t == codes "browser"
    then ok browser
    else err (codes "invalid web feed loading mode")

unfoldable pub language_of : Text → Result Text SelectorLanguage
language_of t =
    if t == codes "css"
    then ok css
    else if t == codes "xpath"
    then ok xpath
    else err (codes "invalid selector language")

unfoldable pub viewport_of : Text → Result Text WebViewport
viewport_of t =
    if t == codes "desktop"
    then ok desktop
    else if t == codes "mobile"
    then ok mobile
    else err (codes "invalid viewport")

module _ (syntax : SyntaxApi) where
  -- `WebSelector::new(..).map_err(|e| e.to_string())`
  unfoldable pub selector_of : SelectorLanguage → Text → Result Text WebSelector
  unfolding new_selector to_string
  selector_of language expression = map_err to_string (new_selector syntax language expression)

  -- The closure `parse` of `recipe_from_draft`.
  unfoldable pub parse_selector : SelectorDraft → Result Text WebSelector
  unfolding language_of selector_of
  parse_selector value = do
    language ← language_of value.language
    selector_of language value.expression

pub record PreparedWebFeed (Url : Type 0) : Type 0 where
  pub draft : WebFeedRecipeDraft
  pub recipe : WebFeedRecipe Url

module _ (api : UrlApi) where
  open api use {Url, parse, scheme, host_str}

  unfoldable pub parse_page : Text → Result Text Url
  parse_page value = ok_or (parse value) (codes "invalid start page URL")

  unfoldable pub parse_listing : Text → Result Text Url
  parse_listing value = ok_or (parse value) (codes "invalid listing URL")

  -- `!matches!(url.scheme(), "http" | "https") || url.host_str().is_none()`
  unfoldable pub is_web_url : Url → Bool
  is_web_url url =
      (scheme url == codes "http" || scheme url == codes "https") && is_some (host_str url)

module _ (api : UrlApi) (syntax : SyntaxApi) where
  open api use {Url, parse}

  -- The actions of a draft.
  unfoldable pub actions_of :
      WebFeedRecipeDraft → WebViewport → ℕ → ℕ → Result Text (ℕ × WebFeedActions Url)
  unfolding parse_selector parse_page new_actions traverse to_string
  actions_of draft viewport max_pages max_actions = do
    overlays ← traverse (parse_selector syntax) draft.hide_overlays
    pages ← traverse (parse_page api) draft.start_pages
    next ← transpose (parse_selector syntax) draft.next_page
    load_more ← transpose (parse_selector syntax) draft.load_more
    let requested_pages = unwrap_or draft.max_pages 1
    refuse_if (requested_pages == 0 || ltb max_pages requested_pages)
        (codes "web feed maxPages exceeds configured limit")
    actions ← map_err to_string (
        new_actions
          (record {
            viewport = viewport;
            hide_overlays = overlays;
            start_pages = pages;
            next_page = next;
            load_more = load_more;
            load_more_clicks = draft.load_more_clicks;
            scrolls = draft.scrolls;
          })
          max_pages max_actions)
    ok (requested_pages, actions)

  unfoldable pub extraction_of : WebFeedRecipeDraft → Result Text (WebExtraction Url)
  unfolding parse_listing new_extraction to_string
  extraction_of draft = do
    listing ← transpose (parse_listing api) draft.listing_url
    map_err to_string (
        new_extraction syntax listing draft.card_selector draft.title_selector draft.date_selector
          draft.content_selector draft.wait_selector draft.url_pattern)

  unfoldable pub recipe_from_draft : WebFeedRecipeDraft → ℕ → ℕ → Result Text (WebFeedRecipe Url)
  unfolding loading_of language_of selector_of viewport_of actions_of extraction_of configured
      to_string
  recipe_from_draft draft max_pages max_actions = do
    loading ← loading_of draft.loading
    language ← language_of (unwrap_or draft.selector_language (codes "css"))
    primary ← selector_of syntax language draft.selector
    viewport ← viewport_of (unwrap_or draft.viewport (codes "desktop"))
    planned ← actions_of draft viewport max_pages max_actions
    extraction ← extraction_of draft
    map_err to_string (configured primary loading planned.1 extraction planned.0)

  -- `PreparedWebFeed::new`; the nil UUID is 0.
  unfoldable pub prepare : WebFeedRecipeDraft → ℕ → ℕ → Result Text (PreparedWebFeed Url)
  unfolding is_web_url recipe_from_draft
  prepare draft max_pages max_actions = do
    refuse_if (max_pages == 0 || max_actions == 0)
        (codes "web feed configuration limits must be positive")
    refuse_if (draft.workspace_id == 0) (codes "missing workspace identity")
    url ← ok_or (parse draft.url) (codes "invalid web feed URL")
    refuse_if (not (is_web_url api url)) (codes "invalid web feed URL")
    recipe ← recipe_from_draft draft max_pages max_actions
    ok (record { draft = draft; recipe = recipe })
