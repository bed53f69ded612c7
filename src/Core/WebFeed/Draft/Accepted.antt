-- ===== src/Core/WebFeed/Draft/Accepted.antt =====
-- What is known of a draft that is accepted.
use inoreader.Prelude.{
  ℕ, ◌≤◌, ◌≡◌, sym, subst, true, false, not, ◌||◌, some, arith, ◌==◌, nat_eq, ltb, unwrap_or, ok,
  ok_or, map_err, traverse, transpose, OptionAll, All, traverse-All, transpose-OptionAll, >>=-eq-ok,
  refuse_if-ok, map_err-ok, ok_or-ok,
}
use inoreader.Prelude.Text.{Text, codes}
use inoreader.Prelude.Url.{UrlApi, Serializes}
use inoreader.Core.WebFeed.{
  SyntaxApi, SelectorLanguage, WebSelector, WebViewport, WebFeedActions, WebExtraction,
  WebFeedRecipe, to_string, new_selector, new_actions, is_static_xpath,
}
use inoreader.Core.WebFeed.Checked.{
  IsSelector, IsBudgeted, IsExtraction, IsRecipe, new_selector-IsSelector, new_actions-IsBudgeted,
  new_extraction-IsExtraction, configured-eq,
}
use inoreader.Core.WebFeed.Draft.{
  SelectorDraft, WebFeedRecipeDraft, PreparedWebFeed, loading_of, language_of, viewport_of,
  selector_of, parse_selector, parse_page, parse_listing, actions_of, extraction_of,
  recipe_from_draft, is_web_url, prepare,
}
use inoreader.Core.WebFeed.Stored.{store_recipe, load_recipe}
use inoreader.Core.WebFeed.Stored.Roundtrip.{load_recipe-IsRecipe}

module _ (syntax : SyntaxApi) where
  selector_of-IsSelector :
      (language : SelectorLanguage) (expression : Text) (s : WebSelector)
      → selector_of syntax language expression ≡ ok s
      → IsSelector syntax s
  unfolding selector_of
  selector_of-IsSelector language expression s h =
      (new_selector-IsSelector syntax language expression s
        (map_err-ok to_string (new_selector syntax language expression) h)).0

  parse_selector-IsSelector :
      (value : SelectorDraft) (s : WebSelector)
      → parse_selector syntax value ≡ ok s
      → IsSelector syntax s
  unfolding parse_selector
  parse_selector-IsSelector value s h =
      let (language, l_ok, h₁) = >>=-eq-ok (language_of value.language) _ h in
      selector_of-IsSelector language value.expression s h₁

-- The limits that the configuration and the draft put on a recipe.
pub record IsWithin {Url : Type 0} (max_pages max_actions : ℕ) (r : WebFeedRecipe Url)
    : Type 0 where
  pub positive : 1 ≤ r.max_pages
  pub paged : r.max_pages ≤ max_pages
  pub budget : IsBudgeted max_pages max_actions r.actions
  pub rendered : is_static_xpath r.loading r.selector.language ≡ false

-- What the actions of a draft are made of.
record ArePlanned (syntax : SyntaxApi) {Url : Type 0} (max_pages max_actions : ℕ)
    (planned : ℕ × WebFeedActions Url) : Type 0 where
  pages : planned.0 ≤ max_pages
  overlays : All (IsSelector syntax) planned.1.hide_overlays
  next : OptionAll (IsSelector syntax) planned.1.next_page
  more : OptionAll (IsSelector syntax) planned.1.load_more
  budget : IsBudgeted max_pages max_actions planned.1

module _ (api : UrlApi) (syntax : SyntaxApi) where
  open api use {Url, parse}

  actions_of-ArePlanned :
      (draft : WebFeedRecipeDraft) (viewport : WebViewport) (max_pages max_actions : ℕ)
      (planned : ℕ × WebFeedActions Url)
      → actions_of api syntax draft viewport max_pages max_actions ≡ ok planned
      → ArePlanned syntax max_pages max_actions planned
  unfolding actions_of
  actions_of-ArePlanned draft viewport max_pages max_actions planned h =
      let (overlays, o_ok, h₁) =
        >>=-eq-ok (traverse (parse_selector syntax) draft.hide_overlays) _ h in
      let (pages, p_ok, h₂) = >>=-eq-ok (traverse (parse_page api) draft.start_pages) _ h₁ in
      let (next, n_ok, h₃) = >>=-eq-ok (transpose (parse_selector syntax) draft.next_page) _ h₂ in
      let (more, m_ok, h₄) = >>=-eq-ok (transpose (parse_selector syntax) draft.load_more) _ h₃ in
      let asked = unwrap_or draft.max_pages 1 in
      let (fits, h₅) =
        refuse_if-ok (asked == 0 || ltb max_pages asked)
          (codes "web feed maxPages exceeds configured limit") _ h₄ in
      let value : WebFeedActions Url = record {
        viewport = viewport;
        hide_overlays = overlays;
        start_pages = pages;
        next_page = next;
        load_more = more;
        load_more_clicks = draft.load_more_clicks;
        scrolls = draft.scrolls;
      } in
      let (actions, a_ok, h₆) =
        >>=-eq-ok (map_err to_string (new_actions value max_pages max_actions)) _ h₅ in
      let (e, budget) =
        new_actions-IsBudgeted value actions max_pages max_actions
          (map_err-ok to_string (new_actions value max_pages max_actions) a_ok) in
      let done : (unwrap_or draft.max_pages 1, actions) ≡ planned = cc h₆ in
      subst (ArePlanned syntax max_pages max_actions) done (record {
        pages = ground (arith, fits);
        overlays =
            subst (λ (a : WebFeedActions Url). All (IsSelector syntax) a.hide_overlays) e
              (traverse-All (parse_selector syntax) (IsSelector syntax)
                (parse_selector-IsSelector syntax) draft.hide_overlays overlays o_ok);
        next =
            subst (λ (a : WebFeedActions Url). OptionAll (IsSelector syntax) a.next_page) e
              (transpose-OptionAll (parse_selector syntax) (IsSelector syntax)
                (parse_selector-IsSelector syntax) draft.next_page next n_ok);
        more =
            subst (λ (a : WebFeedActions Url). OptionAll (IsSelector syntax) a.load_more) e
              (transpose-OptionAll (parse_selector syntax) (IsSelector syntax)
                (parse_selector-IsSelector syntax) draft.load_more more m_ok);
        budget = budget;
      })

  extraction_of-IsExtraction :
      (draft : WebFeedRecipeDraft) (x : WebExtraction Url)
      → extraction_of api syntax draft ≡ ok x
      → IsExtraction syntax x
  unfolding extraction_of
  extraction_of-IsExtraction draft x h =
      let (listing, l_ok, h₁) = >>=-eq-ok (transpose (parse_listing api) draft.listing_url) _ h in
      new_extraction-IsExtraction syntax listing draft.card_selector draft.title_selector
        draft.date_selector draft.content_selector draft.wait_selector draft.url_pattern x
        (map_err-ok to_string _ h₁)

  recipe_from_draft-IsRecipe :
      (draft : WebFeedRecipeDraft) (max_pages max_actions : ℕ) (r : WebFeedRecipe Url)
      → recipe_from_draft api syntax draft max_pages max_actions ≡ ok r
      → IsRecipe syntax r × IsWithin max_pages max_actions r
  unfolding recipe_from_draft
  recipe_from_draft-IsRecipe draft max_pages max_actions r h =
      let (loading, l_ok, h₁) = >>=-eq-ok (loading_of draft.loading) _ h in
      let (language, g_ok, h₂) =
        >>=-eq-ok (language_of (unwrap_or draft.selector_language (codes "css"))) _ h₁ in
      let (primary, s_ok, h₃) = >>=-eq-ok (selector_of syntax language draft.selector) _ h₂ in
      let (viewport, v_ok, h₄) =
        >>=-eq-ok (viewport_of (unwrap_or draft.viewport (codes "desktop"))) _ h₃ in
      let (planned, p_ok, h₅) =
        >>=-eq-ok (actions_of api syntax draft viewport max_pages max_actions) _ h₄ in
      let (x, x_ok, h₆) = >>=-eq-ok (extraction_of api syntax draft) _ h₅ in
      let plan = actions_of-ArePlanned draft viewport max_pages max_actions planned p_ok in
      let built = map_err-ok to_string _ h₆ in
      let (rendered, positive, e) = configured-eq primary loading planned.1 x planned.0 r built in
      subst (λ (t : WebFeedRecipe Url). IsRecipe syntax t × IsWithin max_pages max_actions t)
        (sym e)
        (
          record {
            selector = selector_of-IsSelector syntax language draft.selector primary s_ok;
            overlays = plan.overlays;
            next = plan.next;
            load_more = plan.more;
            extraction = extraction_of-IsExtraction draft x x_ok;
            configured_ok = rw (built) (cc e);
          },
          record {
            positive = positive;
            paged = plan.pages;
            budget = plan.budget;
            rendered = rendered;
          },
        )

  prepare-eq :
      (draft : WebFeedRecipeDraft) (max_pages max_actions : ℕ) (p : PreparedWebFeed Url)
      → prepare api syntax draft max_pages max_actions ≡ ok p
      → (p.draft ≡ draft)
        × (recipe_from_draft api syntax draft max_pages max_actions ≡ ok p.recipe)
        × ((url : Url) × (parse draft.url ≡ some url) × (is_web_url api url ≡ true))
  unfolding prepare
  prepare-eq draft max_pages max_actions p h =
      let (positive, h₁) =
        refuse_if-ok (max_pages == 0 || max_actions == 0)
          (codes "web feed configuration limits must be positive") _ h in
      let (named, h₂) =
        refuse_if-ok (draft.workspace_id == 0) (codes "missing workspace identity") _ h₁ in
      let (url, u_ok, h₃) =
        >>=-eq-ok (ok_or (parse draft.url) (codes "invalid web feed URL")) _ h₂ in
      let (web, h₄) = refuse_if-ok (not (is_web_url api url)) (codes "invalid web feed URL") _ h₃ in
      let (recipe, r_ok, h₅) =
        >>=-eq-ok (recipe_from_draft api syntax draft max_pages max_actions) _ h₄ in
      (
        cc h₅,
        cc (r_ok, h₅),
        (url, ok_or-ok (parse draft.url) (codes "invalid web feed URL") u_ok, ground (arith, web)),
      )

  -- A prepared web feed keeps its draft, whose URL parses to a web URL; its recipe asks for at least
  -- one page and at most the configured number, its actions stay within both configured budgets and
  -- are counted without overflow, and it does not pair static loading with XPath.
  pub prepare-IsWithin :
      (draft : WebFeedRecipeDraft) (max_pages max_actions : ℕ) {p : PreparedWebFeed Url}
      → prepare api syntax draft max_pages max_actions ≡ ok p
      → (p.draft ≡ draft)
        × ((url : Url) × (parse draft.url ≡ some url) × (is_web_url api url ≡ true))
        × IsWithin max_pages max_actions p.recipe
  prepare-IsWithin draft max_pages max_actions {p} h =
      let (kept, made, web) = prepare-eq draft max_pages max_actions p h in
      (kept, web, (recipe_from_draft-IsRecipe draft max_pages max_actions p.recipe made).1)

  -- The recipe of a prepared web feed is read back unchanged from its stored form, if a serialized
  -- URL parses to the same URL.
  pub load_recipe-prepare :
      (url_message : Text → Text) (draft : WebFeedRecipeDraft) (max_pages max_actions : ℕ)
      {p : PreparedWebFeed Url}
      → Serializes api
      → prepare api syntax draft max_pages max_actions ≡ ok p
      → load_recipe api syntax url_message (store_recipe api p.recipe) ≡ ok p.recipe
  load_recipe-prepare url_message draft max_pages max_actions {p} back h =
      let (kept, made, web) = prepare-eq draft max_pages max_actions p h in
      let (recipe, within) = recipe_from_draft-IsRecipe draft max_pages max_actions p.recipe made in
      load_recipe-IsRecipe api syntax url_message back p.recipe recipe within.budget
