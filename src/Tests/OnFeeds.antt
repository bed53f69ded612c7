-- ===== src/Tests/OnFeeds.antt =====
-- The theorems on web feed recipes and publication dates, applied to concrete values. Of the toy
-- dates, an instant is written with a `Z` before it, or an `M` in a mail, and a day or a clock with a `D`.
use inoreader.Prelude.{
  ℕ, false, ◌↔◌, leb, ◌||◌, arith, ◌≡◌, refl, ◌==◌, nat_eq, list_eq, list_beq, true, Option, none,
  some, List, [], ◌∷◌, ok, if◌then◌else◌, traverse, all,
}
use inoreader.Prelude.Text.{Text, codes, trim, trim_start, is_empty, is_whitespace}
use inoreader.Core.WebFeed.{
  SyntaxApi, WebFeedRecipe, static, css, desktop, new_selector, is_well_formed, new_actions,
  page_count, checked_action_count, new_extraction, css_selector, configured,
}
use inoreader.Core.WebFeed.Draft.{
  WebFeedRecipeDraft, PreparedWebFeed, prepare, is_web_url, recipe_from_draft, loading_of,
  language_of, viewport_of, selector_of, parse_selector, parse_page, actions_of, extraction_of,
}
use inoreader.Core.WebFeed.Draft.Accepted.{prepare-IsWithin, load_recipe-prepare, IsWithin}
use inoreader.Core.WebFeed.Stored.{store_recipe, load_recipe}
use inoreader.Core.Publication.{
  DateApi, PublicationDate, PublicationEvidence, parse, day, parsed, resolve_publication, date,
  parse_trimmed, try_from, iso_day, iso_clock, resolve, find_timed, agrees, equivalent, day_only,
  same_text,
}
use inoreader.Core.Publication.Resolution.{
  IsLate, IsResolution, PrintsParse, resolve_publication-IsResolution, day-parse,
}
use inoreader.Tests.{toy_urls, feed, other_feed}

abbrev syntax : SyntaxApi
syntax = record { is_css = λ t. true; is_regex = λ t. true }

abbrev draft : WebFeedRecipeDraft
draft = record {
  workspace_id = 9;
  url = feed;
  selector = codes "a.post";
  loading = codes "static";
  preview = none;
  selector_language = none;
  viewport = none;
  listing_url = none;
  card_selector = some (codes "li");
  title_selector = none;
  date_selector = none;
  content_selector = none;
  wait_selector = none;
  url_pattern = none;
  max_pages = some 2;
  hide_overlays = record { language = codes "css"; expression = codes ".ad" } ∷ [];
  start_pages = other_feed ∷ [];
  next_page = none;
  load_more = none;
  load_more_clicks = 1;
  scrolls = 1;
}

abbrev recipe : WebFeedRecipe Text
recipe = record {
  selector = record { language = css; expression = codes "a.post" };
  loading = static;
  actions = record {
    viewport = desktop;
    hide_overlays = record { language = css; expression = codes ".ad" } ∷ [];
    start_pages = other_feed ∷ [];
    next_page = none;
    load_more = none;
    load_more_clicks = 1;
    scrolls = 1;
  };
  extraction = record {
    listing_url = none;
    card_selector = some (record { language = css; expression = codes "li" });
    title_selector = none;
    date_selector = none;
    content_selector = none;
    wait_selector = none;
    url_pattern = none;
  };
  max_pages = 2;
}

abbrev prepared : PreparedWebFeed Text
prepared = record { draft = draft; recipe = recipe }

accepted : prepare toy_urls syntax draft 3 5 ≡ ok prepared
unfolding prepare is_web_url recipe_from_draft loading_of language_of viewport_of selector_of
    parse_selector parse_page actions_of extraction_of new_selector is_well_formed new_actions
    page_count checked_action_count new_extraction css_selector configured traverse list_beq trim
    trim_start is_empty is_whitespace
accepted = refl

prepare-IsWithin_example :
    (draft ≡ draft)
    × ((url : Text) × (some draft.url ≡ some url) × (is_web_url toy_urls url ≡ true))
    × IsWithin 3 5 recipe
prepare-IsWithin_example = prepare-IsWithin toy_urls syntax draft 3 5 accepted

load_recipe-prepare_example :
    load_recipe toy_urls syntax (λ t. t) (store_recipe toy_urls recipe) ≡ ok recipe
load_recipe-prepare_example =
    load_recipe-prepare toy_urls syntax (λ t. t) draft 3 5 (λ u. refl) accepted

-- The year of a toy instant; the instant `late` is beyond those of RFC 3339.
abbrev pub toy_year : Text → ℕ
toy_year i = if i == codes "late" then 12345 else 2026

abbrev pub toy_instant : Text → Option Text
toy_instant [] = none
toy_instant (c ∷ s) = if c == b'Z' then some s else none

abbrev pub toy_mail : Text → Option Text
toy_mail [] = none
toy_mail (c ∷ s) = if c == b'M' then some s else none

-- A text in the stored format: a printed one begins with `D`, and one with `+` is none.
abbrev pub toy_stored : Text → Option Text
toy_stored [] = none
toy_stored (c ∷ s) =
    if c == b'D' then some s else (if c == b'+' || c == b'M' then none else some (c ∷ s))

abbrev pub toy_day : Text → Text → Option Text
toy_day text format = if format == iso_day then toy_stored text else none

abbrev pub toy_clock : Text → Text → Option Text
toy_clock text format = if format == iso_clock then toy_stored text else none

abbrev pub toy_print : Text → Text
toy_print i = if leb (toy_year i) 9999 then b'Z' ∷ i else b'+' ∷ i

abbrev pub toy_dates : DateApi
toy_dates = record {
  Instant = Text;
  Clock = Text;
  Day = Text;
  instant_eq = list_eq;
  day_eq = list_eq;
  rfc3339 = toy_instant;
  rfc2822 = toy_mail;
  naive_date = toy_day;
  naive_clock = toy_clock;
  to_rfc3339 = toy_print;
  utc_day = λ i. i;
  clock_day = λ c. c;
  day_to_string = λ d. b'D' ∷ d;
  format_clock = λ c format. b'D' ∷ c;
}

toy_dates-PrintsParse : PrintsParse toy_dates toy_year
unfolding list_beq
toy_dates-PrintsParse = record {
  instants =
      λ value i mail early. let fits : leb (toy_year i) 9999 ≡ true = ground arith in rw fits refl;
  late_instants = λ i late.
      let past : leb (toy_year i) 9999 ≡ false = ground arith in
      (rw past refl, rw past refl, rw past refl);
  days = λ d. refl;
  clocks = λ c. refl;
}

abbrev declared : PublicationDate
declared = record { raw = codes "2026-01-02" }

-- A mail date of a year that RFC 3339 does not have.
abbrev panicking : PublicationDate
panicking = record { raw = codes "+late" }

day-parse_example : (day toy_dates panicking ≡ none) ↔ IsLate toy_dates toy_year (codes "Mlate")
unfolding parse parse_trimmed try_from list_beq trim trim_start is_whitespace
day-parse_example = day-parse toy_dates toy_year toy_dates-PrintsParse (codes " Mlate") refl

abbrev evidence : List PublicationEvidence
evidence =
    record { source = codes "rss"; raw = codes "2026-01-02" }
    ∷ record { source = codes "html"; raw = codes " 2026-01-02" }
    ∷ []

resolved : resolve_publication toy_dates evidence ≡ some declared
unfolding resolve_publication parsed date parse parse_trimmed try_from list_beq trim trim_start
    is_whitespace resolve find_timed agrees equivalent day_only same_text all
resolved = refl

resolve_publication-IsResolution_example :
    IsResolution toy_dates (parsed toy_dates evidence) declared
resolve_publication-IsResolution_example =
    resolve_publication-IsResolution toy_dates evidence resolved
