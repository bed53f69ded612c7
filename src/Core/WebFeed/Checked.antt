-- ===== src/Core/WebFeed/Checked.antt =====
-- What the constructors of a web feed's configuration establish of the values that they return.
use inoreader.Prelude.{
  ℕ, ◌≤◌, ◌≡◌, subst, false, Option, some, arith, ◌==◌, nat_eq, ltb, checked_add, ok, ok_or,
  ok_or-ok, OptionAll, transpose-OptionAll, >>=-eq-ok, refuse_if-ok, All,
}
use inoreader.Prelude.Text.{Text, codes}
use inoreader.Core.WebFeed.{
  SyntaxApi, WebLoading, SelectorLanguage, css, WebSelector, WebFeedActions, WebExtraction,
  WebFeedRecipe, new_selector, new_actions, new_extraction, css_selector, configured, page_count,
  action_count, checked_action_count, is_bad_pattern, is_static_xpath, invalid_url_pattern,
  xpath_requires_browser, zero_limit, limit_exceeded, usize_max,
}

module _ (syntax : SyntaxApi) where
  -- The selector passes the test of its constructor.
  abbrev pub IsSelector : WebSelector → Type 0
  IsSelector s = new_selector syntax s.language s.expression ≡ ok s

  abbrev pub IsCss : WebSelector → Type 0
  IsCss s = IsSelector s × (s.language ≡ css)

  pub new_selector-IsSelector :
      (language : SelectorLanguage) (expression : Text) (s : WebSelector)
      → new_selector syntax language expression ≡ ok s
      → IsSelector s × (s.language ≡ language)
  new_selector-IsSelector language expression s h =
      let e : record { language = language; expression = expression } ≡ s =
        unfold new_selector in ground arith in
      (subst (λ (t : WebSelector). new_selector syntax t.language t.expression ≡ ok s) e h, cc e)

  pub css_selector-OptionAll :
      (value : Option Text) (o : Option WebSelector)
      → css_selector syntax value ≡ ok o
      → OptionAll IsCss o
  unfolding css_selector
  css_selector-OptionAll value o h =
      transpose-OptionAll (new_selector syntax css) IsCss (new_selector-IsSelector css) value o h

module _ {Url : Type 0} where
  -- The actions stay within both budgets, and their number is counted without overflow.
  pub record IsBudgeted (max_pages max_actions : ℕ) (a : WebFeedActions Url) : Type 0 where
    pub pages : page_count a ≤ max_pages
    pub actions : action_count a ≤ max_actions
    pub counted : checked_action_count a ≡ some (action_count a)

  checked_action_count-eq :
      (a : WebFeedActions Url) (n : ℕ) → checked_action_count a ≡ some n → action_count a ≡ n
  unfolding checked_action_count checked_add action_count
  checked_action_count-eq a n h = ground arith

  pub new_actions-IsBudgeted :
      (value a : WebFeedActions Url) (max_pages max_actions : ℕ)
      → new_actions value max_pages max_actions ≡ ok a
      → (value ≡ a) × IsBudgeted max_pages max_actions a
  unfolding new_actions
  new_actions-IsBudgeted value a max_pages max_actions h =
      let (within, h₁) =
        refuse_if-ok (ltb max_pages (page_count value)) (limit_exceeded (codes "start_pages")) _
          h in
      let (n, counted, h₂) =
        >>=-eq-ok (ok_or (checked_action_count value) (limit_exceeded (codes "actions"))) _ h₁ in
      let (small, built) =
        refuse_if-ok (ltb max_actions n) (limit_exceeded (codes "actions")) _ h₂ in
      let e : value ≡ a = cc built in
      let some_n =
        ok_or-ok (checked_action_count value) (limit_exceeded (codes "actions")) counted in
      let sum = checked_action_count-eq value n some_n in
      (
        e,
        subst (IsBudgeted max_pages max_actions) e
            (record { pages = ground arith; actions = ground arith; counted = rw sum some_n }),
      )

  -- The budgets of the stored form are the greatest numbers, and no actions exceed those.
  pub IsBudgeted-new_actions :
      (a : WebFeedActions Url) {max_pages max_actions : ℕ}
      → IsBudgeted max_pages max_actions a
      → new_actions a usize_max usize_max ≡ ok a
  unfolding new_actions page_count action_count
  IsBudgeted-new_actions a {max_pages} {max_actions} h = rw h.counted (ground arith)

-- What an extraction is made of: CSS selectors and a pattern that the regex crate accepts.
pub record IsExtraction (syntax : SyntaxApi) {Url : Type 0} (x : WebExtraction Url) : Type 0 where
  pub card : OptionAll (IsCss syntax) x.card_selector
  pub title : OptionAll (IsCss syntax) x.title_selector
  pub date : OptionAll (IsCss syntax) x.date_selector
  pub content : OptionAll (IsCss syntax) x.content_selector
  pub wait : OptionAll (IsCss syntax) x.wait_selector
  pub pattern : is_bad_pattern syntax x.url_pattern ≡ false

module _ (syntax : SyntaxApi) {Url : Type 0} where
  pub new_extraction-IsExtraction :
      (listing : Option Url) (card title date content wait pattern : Option Text)
      (x : WebExtraction Url)
      → new_extraction syntax listing card title date content wait pattern ≡ ok x
      → IsExtraction syntax x
  unfolding new_extraction
  new_extraction-IsExtraction listing card title date content wait pattern x h =
      let (good, h₁) = refuse_if-ok (is_bad_pattern syntax pattern) invalid_url_pattern _ h in
      let (c, c_ok, h₂) = >>=-eq-ok (css_selector syntax card) _ h₁ in
      let (t, t_ok, h₃) = >>=-eq-ok (css_selector syntax title) _ h₂ in
      let (d, d_ok, h₄) = >>=-eq-ok (css_selector syntax date) _ h₃ in
      let (b, b_ok, h₅) = >>=-eq-ok (css_selector syntax content) _ h₄ in
      let (w, w_ok, h₆) = >>=-eq-ok (css_selector syntax wait) _ h₅ in
      let built : WebExtraction Url = record {
        listing_url = listing;
        card_selector = c;
        title_selector = t;
        date_selector = d;
        content_selector = b;
        wait_selector = w;
        url_pattern = pattern;
      } in
      let e : built ≡ x = cc h₆ in
      subst (IsExtraction syntax) e (record {
        card = css_selector-OptionAll syntax card c c_ok;
        title = css_selector-OptionAll syntax title t t_ok;
        date = css_selector-OptionAll syntax date d d_ok;
        content = css_selector-OptionAll syntax content b b_ok;
        wait = css_selector-OptionAll syntax wait w w_ok;
        pattern = good;
      })

module _ {Url : Type 0} where
  pub configured-eq :
      (s : WebSelector) (loading : WebLoading) (a : WebFeedActions Url) (x : WebExtraction Url)
      (max_pages : ℕ) (r : WebFeedRecipe Url)
      → configured s loading a x max_pages ≡ ok r
      → (is_static_xpath loading s.language ≡ false)
        × (1 ≤ max_pages)
        × (r ≡ record {
          selector = s;
          loading = loading;
          actions = a;
          extraction = x;
          max_pages = max_pages;
        })
  unfolding configured
  configured-eq s loading a x max_pages r h =
      let (rendered, h₁) =
        refuse_if-ok (is_static_xpath loading s.language) xpath_requires_browser _ h in
      let (positive, built) =
        refuse_if-ok (max_pages == 0) (zero_limit (codes "web_feed.max_pages")) _ h₁ in
      (rendered, ground arith, cc built)

-- What every accepted recipe satisfies, whatever the budgets are.
pub record IsRecipe (syntax : SyntaxApi) {Url : Type 0} (r : WebFeedRecipe Url) : Type 0 where
  pub selector : IsSelector syntax r.selector
  pub overlays : All (IsSelector syntax) r.actions.hide_overlays
  pub next : OptionAll (IsSelector syntax) r.actions.next_page
  pub load_more : OptionAll (IsSelector syntax) r.actions.load_more
  pub extraction : IsExtraction syntax r.extraction
  pub configured_ok : configured r.selector r.loading r.actions r.extraction r.max_pages ≡ ok r
