-- ===== src/Core/WebFeed/Stored.antt =====
-- crates/reader-core/src/web_feed.rs, the `Deserialize` instances: a stored recipe passes through the
-- constructors again. The stored form is the same record, in which a URL is its text; serde and its
-- message on a URL that does not parse are left to the library.
pub mod Roundtrip
use inoreader.Prelude.{
  ℕ, Option, none, some, List, map, map_option, Result, ok, err, ◌>>=◌, ◌>>◌, ok_or, map_err,
  traverse, transpose,
}
use inoreader.Prelude.Text.{Text, codes}
use inoreader.Prelude.Url.{UrlApi}
use inoreader.Core.WebFeed.{
  SyntaxApi, SelectorLanguage, css, xpath, WebSelector, WebFeedActions, WebExtraction,
  WebFeedRecipe, to_string, usize_max, new_selector, new_actions, new_extraction, configured,
}

-- The derived `Serialize` instances.
abbrev pub store_selector : WebSelector → WebSelector
store_selector s = record { language = s.language; expression = s.expression }

module _ (api : UrlApi) where
  open api use {Url, as_str}

  abbrev pub store_actions : WebFeedActions Url → WebFeedActions Text
  store_actions a = record {
    viewport = a.viewport;
    hide_overlays = map store_selector a.hide_overlays;
    start_pages = map as_str a.start_pages;
    next_page = map_option store_selector a.next_page;
    load_more = map_option store_selector a.load_more;
    load_more_clicks = a.load_more_clicks;
    scrolls = a.scrolls;
  }

  abbrev pub store_extraction : WebExtraction Url → WebExtraction Text
  store_extraction x = record {
    listing_url = map_option as_str x.listing_url;
    card_selector = map_option store_selector x.card_selector;
    title_selector = map_option store_selector x.title_selector;
    date_selector = map_option store_selector x.date_selector;
    content_selector = map_option store_selector x.content_selector;
    wait_selector = map_option store_selector x.wait_selector;
    url_pattern = x.url_pattern;
  }

  abbrev pub store_recipe : WebFeedRecipe Url → WebFeedRecipe Text
  store_recipe r = record {
    selector = store_selector r.selector;
    loading = r.loading;
    actions = store_actions r.actions;
    extraction = store_extraction r.extraction;
    max_pages = r.max_pages;
  }

-- `if value.language != SelectorLanguage::Css { return Err(..) } Ok(value.expression)`
unfoldable pub css_expression : WebSelector → Result Text Text
css_expression value = choose value.language value.expression
  where
    choose : SelectorLanguage → Text → Result Text Text
    choose css expression = ok expression
    choose xpath expression = err (codes "extraction selectors must be CSS")

module _ (syntax : SyntaxApi) where
  -- `Deserialize for WebSelector`
  unfoldable pub load_selector : WebSelector → Result Text WebSelector
  unfolding new_selector to_string
  load_selector raw = map_err to_string (new_selector syntax raw.language raw.expression)

  -- A selector of a raw extraction: it is loaded, and must be CSS.
  unfoldable pub load_css : Option WebSelector → Result Text (Option Text)
  unfolding css_expression
  load_css value = transpose css_expression value

module _ (api : UrlApi) (syntax : SyntaxApi) (url_message : Text → Text) where
  open api use {Url, parse}

  unfoldable pub load_url : Text → Result Text Url
  load_url t = ok_or (parse t) (url_message t)

  -- `Deserialize for WebFeedActions`
  unfoldable pub load_actions : WebFeedActions Text → Result Text (WebFeedActions Url)
  unfolding load_selector load_url new_actions to_string traverse
  load_actions raw = do
    overlays ← traverse (load_selector syntax) raw.hide_overlays
    pages ← traverse load_url raw.start_pages
    next ← transpose (load_selector syntax) raw.next_page
    more ← transpose (load_selector syntax) raw.load_more
    map_err to_string (
        new_actions
          (record {
            viewport = raw.viewport;
            hide_overlays = overlays;
            start_pages = pages;
            next_page = next;
            load_more = more;
            load_more_clicks = raw.load_more_clicks;
            scrolls = raw.scrolls;
          })
          usize_max usize_max)

  -- `Deserialize for WebExtraction`
  unfoldable pub load_extraction : WebExtraction Text → Result Text (WebExtraction Url)
  unfolding load_selector load_css load_url new_extraction to_string
  load_extraction raw = do
    listing ← transpose load_url raw.listing_url
    raw_card ← transpose (load_selector syntax) raw.card_selector
    raw_title ← transpose (load_selector syntax) raw.title_selector
    raw_date ← transpose (load_selector syntax) raw.date_selector
    raw_content ← transpose (load_selector syntax) raw.content_selector
    raw_wait ← transpose (load_selector syntax) raw.wait_selector
    card ← load_css syntax raw_card
    title ← load_css syntax raw_title
    date ← load_css syntax raw_date
    content ← load_css syntax raw_content
    wait ← load_css syntax raw_wait
    map_err to_string (new_extraction syntax listing card title date content wait raw.url_pattern)

  -- `Deserialize for WebFeedRecipe`
  unfoldable pub load_recipe : WebFeedRecipe Text → Result Text (WebFeedRecipe Url)
  unfolding load_selector load_actions load_extraction configured to_string
  load_recipe raw = do
    selector ← load_selector syntax raw.selector
    actions ← load_actions raw.actions
    extraction ← load_extraction raw.extraction
    map_err to_string (configured selector raw.loading actions extraction raw.max_pages)
