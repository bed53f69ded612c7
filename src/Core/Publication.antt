-- ===== src/Core/Publication.antt =====
-- crates/reader-core/src/publication.rs: declared publication dates, and what several declarations
-- say together. The parsers and printers of the chrono crate are an interface.
pub mod Resolution
use inoreader.Prelude.{
  ℕ, Bool, true, false, not, ◌&&◌, ◌||◌, Option, none, some, List, [], ◌∷◌, Eq, ◌==◌, nat_eq,
  list_eq, option_eq, if◌then◌else◌, all, is_some, map_option,
}
use inoreader.Prelude.Text.{Text, codes, trim, starts_with}

-- `DateTime<FixedOffset>`, `NaiveDateTime` and `NaiveDate` with what the code calls of them; a
-- parser's error is `none`. Equality of instants does not look at the offset.
pub record DateApi : Type 1 where
  pub Instant : Type 0
  pub Clock : Type 0
  pub Day : Type 0
  pub instant_eq : Eq Instant
  pub day_eq : Eq Day
  pub rfc3339 : Text → Option Instant
  pub rfc2822 : Text → Option Instant
  pub naive_date : Text → Text → Option Day  -- the text and the format
  pub naive_clock : Text → Text → Option Clock
  pub to_rfc3339 : Instant → Text
  pub utc_day : Instant → Day  -- `with_timezone(&Utc).date_naive()`
  pub clock_day : Clock → Day
  pub day_to_string : Day → Text
  pub format_clock : Clock → Text → Text

pub record PublicationDate : Type 0 where
  pub raw : Text

-- `#[derive(PartialEq)]`
unfoldable pub same_text : PublicationDate → PublicationDate → Bool
same_text a b = a.raw == b.raw

pub record PublicationEvidence : Type 0 where
  pub source : Text
  pub raw : Text

abbrev pub iso_day : Text
iso_day = codes "%Y-%m-%d"

abbrev pub iso_clock : Text
iso_clock = codes "%Y-%m-%dT%H:%M:%S%.f"

-- `%Y年%m月%d日`
abbrev pub day_formats : List Text
day_formats =
    codes "%Y/%m/%d"
    ∷ codes "%B %d, %Y"
    ∷ codes "%b %d, %Y"
    ∷ codes "%d %B %Y"
    ∷ codes "%d %b %Y"
    ∷ codes "%Y年%m月%d日"
    ∷ []

abbrev pub clock_formats : List Text
clock_formats =
    codes "%Y-%m-%d %H:%M:%S%.f" ∷ codes "%Y-%m-%d %H:%M" ∷ codes "%Y/%m/%d %H:%M:%S" ∷ []

-- The first of two options that has a value.
abbrev pub or_else {ℓ} : {A : Type ℓ} → Option A → Option A → Option A
or_else none b = b
or_else (some a) b = some a

-- The first format that parses.
unfoldable pub first_of {ℓ} : {A : Type ℓ} → (Text → Option A) → List Text → Option A
first_of parse [] = none
first_of parse (f ∷ fs) = let rest = first_of parse fs in or_else (parse f) rest

abbrev pub add_to {ℓ} : {A : Type ℓ} → Option A → List A → List A
add_to none rest = rest
add_to (some d) rest = d ∷ rest

-- `strip_prefix`
unfoldable pub strip_prefix : Text → Text → Option Text
strip_prefix [] s = some s
strip_prefix (p ∷ ps) [] = none
strip_prefix (p ∷ ps) (c ∷ s) = let rest = strip_prefix ps s in if p == c then rest else none

module _ (dates : DateApi) where
  open dates use {
    Instant, Clock, Day, rfc3339, rfc2822, naive_date, naive_clock, to_rfc3339, utc_day, clock_day,
    day_to_string, format_clock,
  }

  -- `TryFrom<String> for PublicationDate`
  unfoldable pub try_from : Text → Option PublicationDate
  try_from value =
      if is_some (rfc3339 value)
        || is_some (naive_date value iso_day)
        || is_some (naive_clock value iso_clock)
      then some (record { raw = value })
      else none

  -- `PublicationDate::parse` behind `trim`
  unfoldable pub parse_trimmed : Text → Option PublicationDate
  unfolding try_from first_of
  parse_trimmed value = or_else (try_from value) (
      or_else (map_option (λ d. record { raw = to_rfc3339 d }) (rfc2822 value)) (
        or_else
          (map_option (λ d. record { raw = day_to_string d })
            (first_of (naive_date value) day_formats))
          (map_option (λ d. record { raw = format_clock d iso_clock })
            (first_of (naive_clock value) clock_formats))))

  unfoldable pub parse : Text → Option PublicationDate
  unfolding parse_trimmed trim
  parse value = parse_trimmed (trim value)

  -- `PublicationDate::day`; `none` is the panic of `expect`.
  unfoldable pub day : PublicationDate → Option Day
  day d =
      or_else (map_option utc_day (rfc3339 d.raw))
        (or_else (map_option clock_day (naive_clock d.raw iso_clock)) (naive_date d.raw iso_day))

  -- `PublicationDate::equivalent`
  unfoldable pub equivalent : PublicationDate → PublicationDate → Bool
  unfolding same_text
  equivalent a b = compare (rfc3339 a.raw) (rfc3339 b.raw)
    where
      compare : Option Instant → Option Instant → Bool
      compare (some s) (some t) = dates.instant_eq.beq s t
      compare _ _ = same_text a b

  unfoldable pub day_only : PublicationDate → Bool
  day_only d = is_some (naive_date d.raw iso_day)

  -- `PublicationEvidence::date`
  unfoldable pub date : PublicationEvidence → Option PublicationDate
  unfolding strip_prefix trim parse
  date e =
      if e.source == codes "html:huawei-blog-byline"
      then and_parse (strip_prefix (codes "发表于") (trim e.raw))
      else parse e.raw
    where
      and_parse : Option Text → Option PublicationDate
      and_parse none = none
      and_parse (some t) = parse (trim t)

  -- `filter_map(PublicationEvidence::date)`
  unfoldable pub parsed : List PublicationEvidence → List PublicationDate
  unfolding date
  parsed [] = []
  parsed (e ∷ es) = let rest = parsed es in add_to (date e) rest

  -- `iter().find(|date| !date.day_only())`
  unfoldable pub find_timed : List PublicationDate → Option PublicationDate
  unfolding day_only
  find_timed [] = none
  find_timed (d ∷ ds) = let rest = find_timed ds in if not (day_only d) then some d else rest

  abbrev pub head : List PublicationDate → Option PublicationDate
  head [] = none
  head (d ∷ ds) = some d

  -- The test of `all` in `resolve_publication`.
  unfoldable pub agrees : PublicationDate → PublicationDate → Bool
  unfolding equivalent day_only day
  agrees first value =
      equivalent first value
      || (day_only value && (option_eq ⦃e = dates.day_eq⦄).beq (day value) (day first))

  -- `?` on the choice of the first date, and `all(..).then(..)`
  abbrev pub confirm : List PublicationDate → Option PublicationDate → Option PublicationDate
  confirm ds none = none
  confirm ds (some first) = if all (agrees first) ds then some first else none

  -- `resolve_publication` of the parsed dates
  unfoldable pub resolve : List PublicationDate → Option PublicationDate
  unfolding find_timed agrees all
  resolve ds = confirm ds (or_else (find_timed ds) (head ds))

  unfoldable pub resolve_publication : List PublicationEvidence → Option PublicationDate
  unfolding resolve parsed
  resolve_publication values = resolve (parsed values)
