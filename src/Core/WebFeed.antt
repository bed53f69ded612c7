-- ===== src/Core/WebFeed.antt =====
-- crates/reader-core/src/web_feed.rs, the checked configuration of a web feed: selectors, actions,
-- extraction and recipe. The CSS parser of `scraper` and the `regex` crate are parameters, of which
-- the code asks only whether a text is accepted. A `usize` is 64 bits wide.
pub mod Checked
pub mod Draft
pub mod Stored
use inoreader.Prelude.{
  ℕ, ◌+◌, ◌-◌, ◌%◌, Bool, true, false, not, ◌&&◌, ◌||◌, Option, none, some, List, [], ◌∷◌, ◌++◌,
  arith, ◌==◌, nat_eq, list_eq, if◌then◌else◌, ltb, length, min, u64_mod, checked_add, Result, ok,
  err, ◌>>=◌, ◌>>◌, refuse_if, ok_or, transpose,
}
use inoreader.Prelude.Text.{Text, codes, trim, trim_start, is_empty, starts_with}

pub record SyntaxApi : Type 0 where
  pub is_css : Text → Bool  -- `scraper::Selector::parse(..).is_ok()`
  pub is_regex : Text → Bool  -- `regex::Regex::new(..).is_ok()`

pub data WebLoading : Type 0 where
  automatic static browser : WebLoading

pub data SelectorLanguage : Type 0 where
  css xpath : SelectorLanguage

pub record WebSelector : Type 0 where
  pub language : SelectorLanguage
  pub expression : Text

pub data WebViewport : Type 0 where
  desktop mobile : WebViewport

pub record WebFeedActions (Url : Type 0) : Type 0 where
  pub viewport : WebViewport
  pub hide_overlays : List WebSelector
  pub start_pages : List Url
  pub next_page : Option WebSelector
  pub load_more : Option WebSelector
  pub load_more_clicks : ℕ
  pub scrolls : ℕ

pub record WebExtraction (Url : Type 0) : Type 0 where
  pub listing_url : Option Url
  pub card_selector : Option WebSelector
  pub title_selector : Option WebSelector
  pub date_selector : Option WebSelector
  pub content_selector : Option WebSelector
  pub wait_selector : Option WebSelector
  pub url_pattern : Option Text

pub record WebFeedRecipe (Url : Type 0) : Type 0 where
  pub selector : WebSelector
  pub loading : WebLoading
  pub actions : WebFeedActions Url
  pub extraction : WebExtraction Url
  pub max_pages : ℕ

pub data WebFeedError : Type 0 where
  empty_selector invalid_selector invalid_url_pattern xpath_requires_browser : WebFeedError
  limit_exceeded : Text → WebFeedError
  zero_limit : Text → WebFeedError

-- The `Display` that `thiserror` derives.
unfoldable pub to_string : WebFeedError → Text
to_string empty_selector = codes "Web feed selector must not be empty"
to_string invalid_selector = codes "selector syntax is invalid"
to_string invalid_url_pattern = codes "URL pattern syntax is invalid"
to_string xpath_requires_browser = codes "XPath selection requires browser or automatic loading"
to_string (limit_exceeded what) = codes "configured Web feed limit exceeded: " ++ what
to_string (zero_limit field) =
    codes "configured limit " ++ field ++ codes " must be greater than zero"

-- The syntax test of `WebSelector::new`.
unfoldable pub is_well_formed : SyntaxApi → SelectorLanguage → Text → Bool
is_well_formed syntax css expression = syntax.is_css expression
is_well_formed syntax xpath expression =
    starts_with (trim_start expression) (codes "/")
    || starts_with (trim_start expression) (codes "(")

-- `WebSelector::new`
unfoldable pub new_selector : SyntaxApi → SelectorLanguage → Text → Result WebFeedError WebSelector
unfolding is_well_formed
new_selector syntax language expression = do
  refuse_if (is_empty (trim expression)) empty_selector
  refuse_if (not (is_well_formed syntax language expression)) invalid_selector
  ok (record { language = language; expression = expression })

abbrev pub usize_max : ℕ
usize_max = u64_mod - 1

-- `usize::from(value.is_some())`
abbrev pub count_some {ℓ} : {A : Type ℓ} → Option A → ℕ
count_some none = 0
count_some (some a) = 1

-- `and_then(|n| n.checked_add(m))`
abbrev pub then_add : Option ℕ → ℕ → Option ℕ
then_add none m = none
then_add (some n) m = checked_add n m

module _ {Url : Type 0} where
  -- `page_count`: `saturating_add` stops at the greatest usize.
  unfoldable pub page_count : WebFeedActions Url → ℕ
  page_count a = min (length a.start_pages + 1) usize_max

  -- `action_count`: the sums wrap in a release build.
  unfoldable pub action_count : WebFeedActions Url → ℕ
  action_count a =
      (length a.hide_overlays + a.load_more_clicks + a.scrolls + count_some a.next_page) % u64_mod

  unfoldable pub checked_action_count : WebFeedActions Url → Option ℕ
  unfolding checked_add
  checked_action_count a =
      then_add (then_add (checked_add (length a.hide_overlays) a.load_more_clicks) a.scrolls)
        (count_some a.next_page)

  -- `WebFeedActions::new`, of the record that it is to return
  unfoldable pub new_actions : WebFeedActions Url → ℕ → ℕ → Result WebFeedError (WebFeedActions Url)
  unfolding page_count checked_action_count
  new_actions value max_pages max_actions = do
    refuse_if (ltb max_pages (page_count value)) (limit_exceeded (codes "start_pages"))
    action_count ← ok_or (checked_action_count value) (limit_exceeded (codes "actions"))
    refuse_if (ltb max_actions action_count) (limit_exceeded (codes "actions"))
    ok value

-- `WebFeedActions::default()` and `WebExtraction::default()`
abbrev pub default_actions : {Url : Type 0} → WebFeedActions Url
default_actions = record {
  viewport = desktop;
  hide_overlays = [];
  start_pages = [];
  next_page = none;
  load_more = none;
  load_more_clicks = 0;
  scrolls = 0;
}

abbrev pub default_extraction : {Url : Type 0} → WebExtraction Url
default_extraction = record {
  listing_url = none;
  card_selector = none;
  title_selector = none;
  date_selector = none;
  content_selector = none;
  wait_selector = none;
  url_pattern = none;
}

-- `if let Some(value) = url_pattern.as_deref() { Regex::new(value)?; }`
abbrev pub is_bad_pattern : SyntaxApi → Option Text → Bool
is_bad_pattern syntax none = false
is_bad_pattern syntax (some p) = not (syntax.is_regex p)

-- The closure `css` of `WebExtraction::new`.
unfoldable pub css_selector : SyntaxApi → Option Text → Result WebFeedError (Option WebSelector)
css_selector syntax value = transpose (new_selector syntax css) value

module _ (syntax : SyntaxApi) {Url : Type 0} where
  -- `WebExtraction::new`
  unfoldable pub new_extraction :
      Option Url
      → Option Text
      → Option Text
      → Option Text
      → Option Text
      → Option Text
      → Option Text
      → Result WebFeedError (WebExtraction Url)
  unfolding css_selector
  new_extraction listing_url card title date content wait url_pattern = do
    refuse_if (is_bad_pattern syntax url_pattern) invalid_url_pattern
    card_selector ← css_selector syntax card
    title_selector ← css_selector syntax title
    date_selector ← css_selector syntax date
    content_selector ← css_selector syntax content
    wait_selector ← css_selector syntax wait
    ok (record {
      listing_url = listing_url;
      card_selector = card_selector;
      title_selector = title_selector;
      date_selector = date_selector;
      content_selector = content_selector;
      wait_selector = wait_selector;
      url_pattern = url_pattern;
    })

-- `loading == Static && selector.language() == XPath`
abbrev pub is_static_xpath : WebLoading → SelectorLanguage → Bool
is_static_xpath static xpath = true
is_static_xpath _ _ = false

module _ {Url : Type 0} where
  -- `WebFeedRecipe::configured`
  unfoldable pub configured :
      WebSelector
      → WebLoading
      → WebFeedActions Url
      → WebExtraction Url
      → ℕ
      → Result WebFeedError (WebFeedRecipe Url)
  configured selector loading actions extraction max_pages = do
    refuse_if (is_static_xpath loading selector.language) xpath_requires_browser
    refuse_if (max_pages == 0) (zero_limit (codes "web_feed.max_pages"))
    ok (record {
      selector = selector;
      loading = loading;
      actions = actions;
      extraction = extraction;
      max_pages = max_pages;
    })

  unfoldable pub advanced :
      WebSelector → WebLoading → WebFeedActions Url → Result WebFeedError (WebFeedRecipe Url)
  unfolding configured
  advanced selector loading actions = configured selector loading actions default_extraction 1

  -- `WebFeedRecipe::new`
  unfoldable pub new_recipe :
      SyntaxApi → Text → WebLoading → Result WebFeedError (WebFeedRecipe Url)
  unfolding new_selector advanced
  new_recipe syntax selector loading =
      new_selector syntax css selector >>= λ s. advanced s loading default_actions
