-- ===== src/Core/Publication/Resolution.antt =====
-- What a resolved publication date has to do with the declarations, and that it has a day.
use mathlib.Core.List.{Memᴰ}
use mathlib.Core.List.Memᴰ.{cast, head as at_head, tail as at_tail}
use inoreader.Prelude.{
  ℕ, ◌≤◌, ◌<◌, ◌↔◌, leb, refl, ◌≡◌, Bool, true, false, ◌||◌, ◌⊎◌, inl, inr, Option, none, some,
  List, [], ◌∷◌, arith, option_eq, option_beq_iff, all, is_some, map_option, sym, subst, All-map,
  All, Bool-cases, Option-cases, nat_eq, list_eq, &&-eq_true,
}
use inoreader.Prelude.Text.{Text, trim}
use inoreader.Core.Publication.{
  DateApi, PublicationDate, PublicationEvidence, equivalent, day_only, day, parsed, find_timed,
  agrees, confirm, resolve, resolve_publication, or_else, parse, parse_trimmed, try_from, first_of,
  iso_day, iso_clock, day_formats, clock_formats,
}

all-All {ℓ} : {A : Type ℓ} (p : A → Bool) (xs : List A) → all p xs ≡ true → All (λ x. p x ≡ true) xs
unfolding all
all-All p [] h = tt
all-All p (x ∷ xs) h = let (a, b) = &&-eq_true (p x) (all p xs) h in (a, all-All p xs b)

module _ (dates : DateApi) where
  open dates use {Day}

  -- The same instant or text, or a day without a time that is the day of the other.
  abbrev pub Supports : PublicationDate → PublicationDate → Type 0
  Supports r d =
      (equivalent dates r d ≡ true) ⊎ ((day_only dates d ≡ true) × (day dates d ≡ day dates r))

  -- What the code promises of a resolved date, of the parsed declarations.
  pub record IsResolution (ds : List PublicationDate) (r : PublicationDate) : Type 0 where
    pub declared : Memᴰ r ds
    pub supported : All (Supports r) ds
    pub timed : (day_only dates r ≡ false) ⊎ All (λ d. day_only dates d ≡ true) ds

  agrees-Supports : (r d : PublicationDate) → agrees dates r d ≡ true → Supports r d
  unfolding agrees
  agrees-Supports r d h = elim (Bool-cases (equivalent dates r d)) [
    | inl same ↦ inl same
    | inr other ↦
        let (only, days) =
          &&-eq_true (day_only dates d)
            ((option_eq ⦃e = dates.day_eq⦄).beq (day dates d) (day dates r)) (ground arith) in
        inr (only, (option_beq_iff ⦃e = dates.day_eq⦄ (day dates d) (day dates r)).0 days)
  ]

  find_timed-none :
      (ds : List PublicationDate)
      → find_timed dates ds ≡ none
      → All (λ d. day_only dates d ≡ true) ds
  unfolding find_timed
  find_timed-none [] h = tt
  find_timed-none (d ∷ ds) h = elim (Bool-cases (day_only dates d)) [
    | inl only ↦ (only, find_timed-none ds (ground arith))
    | inr timed ↦ absurd (ground arith)
  ]

  find_timed-some :
      (ds : List PublicationDate) (r : PublicationDate)
      → find_timed dates ds ≡ some r
      → Memᴰ r ds × (day_only dates r ≡ false)
  unfolding find_timed
  find_timed-some [] r h = absurd (cc h)
  find_timed-some (d ∷ ds) r h = elim (Bool-cases (day_only dates d)) [
    | inl only ↦ let (there, timed) = find_timed-some ds r (ground arith) in (at_tail there, timed)
    | inr timed ↦ let e : r ≡ d = ground arith in (at_head e, rw e timed)
  ]

  confirmed :
      (ds : List PublicationDate) (first r : PublicationDate)
      → confirm dates ds (some first) ≡ some r
      → (first ≡ r) × All (Supports r) ds
  confirmed ds first r h = elim (Bool-cases (all (agrees dates first) ds)) [
    | inl agreed ↦
        let e : first ≡ r = ground arith in
        (
          e,
          subst (λ (t : PublicationDate). All (Supports t) ds) e
              (All-map (agrees-Supports first) ds (all-All (agrees dates first) ds agreed)),
        )
    | inr contradicted ↦ absurd (ground arith)
  ]

  resolve-IsResolution :
      (ds : List PublicationDate) (r : PublicationDate)
      → resolve dates ds ≡ some r
      → IsResolution ds r
  unfolding resolve
  resolve-IsResolution [] r h = absurd (unfold find_timed in cc h)
  resolve-IsResolution (d ∷ ds) r h = elim (Option-cases (find_timed dates (d ∷ ds))) [
    | inl days ↦
        let (e, supported) = confirmed (d ∷ ds) d r (cc (rw days at h)) in
        record {
          declared = at_head (sym e);
          supported = supported;
          timed = inr (find_timed-none (d ∷ ds) days);
        }
    | inr (t, found) ↦
        let (e, supported) = confirmed (d ∷ ds) t r (cc (rw found at h)) in
        let (among, timed) = find_timed-some (d ∷ ds) t found in
        record {
          declared = cast (sym e) among;
          supported = supported;
          timed = inl (rw (← e) timed);
        }
  ]

  -- A resolved date is one of the declared dates; every declared date is equivalent to it or a day
  -- without a time that is its day; and it has a time if any of them has.
  pub resolve_publication-IsResolution :
      (values : List PublicationEvidence) {r : PublicationDate}
      → resolve_publication dates values ≡ some r
      → IsResolution (parsed dates values) r
  unfolding resolve_publication
  resolve_publication-IsResolution values {r} h = resolve-IsResolution (parsed dates values) r h

-- Documented of chrono: what it prints in a format it parses in that format, but RFC 3339 has no years
-- beyond 9999; such a text, of which the offset is a part, is not a date or clock without an offset
-- either. `year` is the year at the instant's own offset.
pub record PrintsParse (dates : DateApi) (year : dates.Instant → ℕ) : Type 0 where
  pub instants :
      (value : Text) (i : dates.Instant)
      → dates.rfc2822 value ≡ some i
      → year i ≤ 9999
      → is_some (dates.rfc3339 (dates.to_rfc3339 i)) ≡ true
  pub late_instants :
      (i : dates.Instant)
      → 9999 < year i
      → (dates.rfc3339 (dates.to_rfc3339 i) ≡ none)
        × (dates.naive_clock (dates.to_rfc3339 i) iso_clock ≡ none)
        × (dates.naive_date (dates.to_rfc3339 i) iso_day ≡ none)
  pub days : (d : dates.Day) → is_some (dates.naive_date (dates.day_to_string d) iso_day) ≡ true
  pub clocks :
      (c : dates.Clock)
      → is_some (dates.naive_clock (dates.format_clock c iso_clock) iso_clock) ≡ true

or_else-some {ℓ} :
    {A : Type ℓ} (a b : Option A) {r : A} → or_else a b ≡ some r → (a ≡ some r) ⊎ (b ≡ some r)
or_else-some none b h = inr h
or_else-some (some x) b h = inl h

map_option-some {ℓ κ} :
    {A : Type ℓ} {B : Type κ} (f : A → B) (o : Option A) {r : B}
    → map_option f o ≡ some r
    → (a : A) × (r ≡ f a)
map_option-some f none h = absurd (cc h)
map_option-some f (some a) h = (a, cc h)

module _ (dates : DateApi) where
  open dates use {Instant, Day, Clock, rfc2822, naive_date, naive_clock}

  -- The text is in one of the three forms that a date may be stored in.
  abbrev IsDated : Text → Type 0
  IsDated t =
      (is_some (dates.rfc3339 t)
        || is_some (naive_date t iso_day)
        || is_some (naive_clock t iso_clock))
      ≡ true

  IsDated-day : (d : PublicationDate) → IsDated d.raw → is_some (day dates d) ≡ true
  unfolding day
  IsDated-day d h = ground arith

  try_from-IsDated :
      (value : Text) (d : PublicationDate) → try_from dates value ≡ some d → IsDated d.raw
  unfolding try_from
  try_from-IsDated value d h = ground arith

  -- A text that is read as a mail date, in a year that RFC 3339 does not have.
  abbrev pub IsLate : (year : Instant → ℕ) → Text → Type 0
  IsLate year value =
      (try_from dates value ≡ none) × ((i : Instant) × (rfc2822 value ≡ some i) × (9999 < year i))

  module _ (year : Instant → ℕ) (back : PrintsParse dates year) where
    named-IsDated :
        (value : Text) (d : PublicationDate)
        → or_else
            (map_option
              (λ i. record { raw = dates.day_to_string i })
              (first_of (naive_date value) day_formats))
            (map_option
              (λ i. record { raw = dates.format_clock i iso_clock })
              (first_of (naive_clock value) clock_formats))
          ≡ some d
        → IsDated d.raw
    named-IsDated value d h =
        elim (or_else-some
          (map_option (λ i. record { raw = dates.day_to_string i })
            (first_of (naive_date value) day_formats))
          _ h) [
            | inl named ↦
                let (i, e) =
                  map_option-some (λ i. record { raw = dates.day_to_string i })
                    (first_of (naive_date value) day_formats) named in
                rw e (ground (arith, back.days i))
            | inr timed ↦
                let (i, e) =
                  map_option-some (λ i. record { raw = dates.format_clock i iso_clock })
                    (first_of (naive_clock value) clock_formats) timed in
                rw e (ground (arith, back.clocks i))
          ]

    -- A date that is dated is no late one.
    dated :
        (value : Text) (d : PublicationDate)
        → IsDated d.raw
        → ¬ IsLate year value
        → (day dates d ≡ none) ↔ IsLate year value
    dated value d h early = (
      λ panic. absurd (let fine = IsDated-day d h in ground (arith, panic, fine)),
      λ late. absurd (early late),
    )

    mail-IsLate :
        (value : Text) (i : Instant)
        → try_from dates value ≡ none
        → rfc2822 value ≡ some i
        → (day dates (record { raw = dates.to_rfc3339 i }) ≡ none) ↔ IsLate year value
    unfolding day
    mail-IsLate value i other mail = elim (Bool-cases (leb (year i) 9999)) [
      | inl early ↦
          let fine = back.instants value i mail (ground arith) in
          dated value (record { raw = dates.to_rfc3339 i }) (ground (arith, fine))
            (λ (e, (j, mail', late)).
              let same : i ≡ j = cc (mail, mail') in
              let le : year j ≤ 9999 = subst (λ (k : Instant). year k ≤ 9999) same (ground arith) in
              absurd (omega (arith, le, late)))
      | inr late ↦
          let past : 9999 < year i = ground arith in
          let (a, b, c) = back.late_instants i past in
          (λ panic. (other, (i, mail, past)), λ l. rw (a, b, c) refl)
    ]

    parse_trimmed-IsLate :
        (value : Text) (d : PublicationDate)
        → parse_trimmed dates value ≡ some d
        → (day dates d ≡ none) ↔ IsLate year value
    unfolding parse_trimmed
    parse_trimmed-IsLate value d h = elim (Option-cases (try_from dates value)) [
      | inr (t, stored) ↦
          let e : t ≡ d = cc (rw stored at h) in
          dated value d (try_from-IsDated value d (cc (stored, e)))
            (λ late. absurd (cc (late.0, stored)))
      | inl other ↦ elim (Option-cases (rfc2822 value)) [
        | inr (i, mail) ↦
            let e : record { raw = dates.to_rfc3339 i } ≡ d = cc (rw (other, mail) at h) in
            subst (λ (x : PublicationDate). (day dates x ≡ none) ↔ IsLate year value) e
              (mail-IsLate value i other mail)
        | inl none_ ↦
            dated value d (named-IsDated value d (rw (other, none_) at h))
              (λ (o, (i, mail, late)). absurd (cc (mail, none_)))
      ]
    ]

    -- For a date that parse accepts, day panics exactly if the trimmed text is in no form in which a
    -- date is stored, and is an RFC 2822 date of a year beyond 9999.
    pub day-parse :
        (value : Text) {d : PublicationDate}
        → parse dates value ≡ some d
        → (day dates d ≡ none) ↔ IsLate year (trim value)
    unfolding parse
    day-parse value {d} h = parse_trimmed-IsLate (trim value) d h
