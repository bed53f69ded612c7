-- ===== src/Ai/Stream/Cut.antt =====
-- How a streamed answer is cut into chunks does not matter.
use mathlib.Core.List.{flatten, append_assoc, append-nil}
use inoreader.Prelude.{
  ℕ, zero, suc, ◌+◌, ◌-◌, ◌≤◌, ◌<◌, ◌≡◌, refl, sym, ap, subst, ◌∙◌, inl, inr, true, false, Option,
  none, some, List, [], ◌∷◌, ◌++◌, arith, ◌==◌, nat_eq, if◌then◌else◌, ltb, length, length-append,
  take, drop, Bool-cases, Result, ok, err, ◌>>=◌, checked_add, u64_mod,
}
use inoreader.Prelude.Text.{Text}
use inoreader.Ai.Pricing.{AiError}
use inoreader.Ai.Stream.Cursor.{OkAll, IsAt, step-cursor}
use inoreader.Ai.Stream.{
  JsonApi, Scan, VerifiedSegments, slice, close_object, inside, start_array, in_array, step, scan,
  new, push,
}

drop-append : (n : ℕ) (xs ys : List ℕ) → n ≤ length xs → drop n (xs ++ ys) ≡ drop n xs ++ ys
drop-append zero xs ys h = refl
drop-append (suc n) [] ys h = absurd (omega arith)
drop-append (suc n) (x ∷ xs) ys h = drop-append n xs ys (omega arith)

take-append : (n : ℕ) (xs ys : List ℕ) → n ≤ length xs → take n (xs ++ ys) ≡ take n xs
take-append zero xs ys h = refl
take-append (suc n) [] ys h = absurd (omega arith)
take-append (suc n) (x ∷ xs) ys h = ap (λ zs. x ∷ zs) (take-append n xs ys (omega arith))

length-drop_bytes : (n : ℕ) (xs : List ℕ) → length (drop n xs) ≡ length xs - n
length-drop_bytes zero xs = omega arith
length-drop_bytes (suc n) [] = omega arith
length-drop_bytes (suc n) (x ∷ xs) = omega (arith, length-drop_bytes n xs)

-- What was received later is not in a slice of what was there.
slice-append :
    (start end_ : ℕ) (raw more : List ℕ)
    → end_ ≤ length raw
    → slice start end_ (raw ++ more) ≡ slice start end_ raw
unfolding slice
slice-append start end_ raw more h = elim (Bool-cases (ltb end_ start)) [
  | inl past ↦ let none_ : end_ - start ≡ 0 = ground arith in rw none_ refl
  | inr in_ ↦
      let le : start ≤ length raw = ground arith in
      rw (drop-append start raw more le) (
        take-append (end_ - start) (drop start raw) more
          (omega (arith, length-drop_bytes start raw, h)))
]

module _ {E A B C : Type 0} where
  >>=-assoc :
      (m : Result E A) (f : A → Result E B) (g : B → Result E C)
      → ((m >>= f) >>= g) ≡ (m >>= λ a. f a >>= g)
  >>=-assoc (ok a) f g = refl
  >>=-assoc (err e) f g = refl

module _ {E A B : Type 0} (P : A → Type 0) where
  -- Two chains that agree where the first part is in `P`.
  >>=-All :
      (m : Result E A) (f g : A → Result E B)
      → OkAll P m
      → ((a : A) → P a → f a ≡ g a)
      → (m >>= f) ≡ (m >>= g)
  >>=-All (ok a) f g p h = h a p
  >>=-All (err e) f g p h = refl

  pub >>=-OkAll :
      (Q : B → Type 0) (m : Result E A) (f : A → Result E B)
      → OkAll P m
      → ((a : A) → P a → OkAll Q (f a))
      → OkAll Q (m >>= f)
  >>=-OkAll Q (ok a) f p h = h a p
  >>=-OkAll Q (err e) f p h = tt

module _ (json : JsonApi) (article : Text) where
  close_object-append :
      (raw more : List ℕ) (s : Scan) (start : ℕ)
      → s.cursor ≤ length raw
      → close_object json article (raw ++ more) s start ≡ close_object json article raw s start
  unfolding close_object
  close_object-append raw more s start h = rw (slice-append start s.cursor raw more h) refl

  in_array-append :
      (raw more : List ℕ) (s : Scan) (position byte : ℕ) (object : Option ℕ)
      → s.cursor ≤ length raw
      → in_array json article (raw ++ more) s position byte object
        ≡ in_array json article raw s position byte object
  unfolding inside
  in_array-append raw more s position byte none h = refl
  in_array-append raw more s position byte (some start) h =
      let opened : Scan = record s { depth = if byte == b'{' then s.depth + 1 else s.depth } in
      rw (close_object-append raw more (record opened { depth = opened.depth - 1 }) start h) refl

  start_array-append :
      (raw more : List ℕ) (s : Scan)
      → s.cursor ≤ length raw
      → start_array json article (raw ++ more) s ≡ start_array json article raw s
  unfolding start_array
  start_array-append raw more s h = rw (slice-append 0 s.cursor raw more h) refl

  step-append :
      (raw more : List ℕ) (s : Scan) (byte : ℕ)
      → s.cursor + 1 ≤ length raw
      → step json article (raw ++ more) s byte ≡ step json article raw s byte
  unfolding step
  step-append raw more old byte h =
      let s : Scan = record old { cursor = old.cursor + 1 } in
      rw
        (
          start_array-append raw more s h,
          in_array-append raw more s old.cursor byte s.object_start h,
        )
        refl

  -- Scanning on after a scan, and after what is received meanwhile.
  scan-append :
      (raw : List ℕ) (s : Scan) (xs ys : List ℕ)
      → scan json article raw s (xs ++ ys)
        ≡ (scan json article raw s xs >>= λ t. scan json article raw t ys)
  unfolding scan
  scan-append raw s [] ys = refl
  scan-append raw s (x ∷ xs) ys =
      ap (λ k. step json article raw s x >>= k) (λ i t. scan-append raw t xs ys i)
      ∙ sym (
          >>=-assoc (step json article raw s x) (λ t. scan json article raw t xs)
            (λ t. scan json article raw t ys))

  scan-more :
      (raw more : List ℕ) (s : Scan) (xs : List ℕ)
      → s.cursor + length xs ≤ length raw
      → scan json article (raw ++ more) s xs ≡ scan json article raw s xs
  unfolding scan
  scan-more raw more s [] h = refl
  scan-more raw more s (x ∷ xs) h =
      ap (λ m. m >>= λ t. scan json article (raw ++ more) t xs)
        (step-append raw more s x (omega (arith, h)))
      ∙ >>=-All (IsAt (s.cursor + 1)) (step json article raw s x) _ _
          (step-cursor json article raw s x)
          (λ t at. scan-more raw more t xs (omega (arith, h, at)))

  scan-cursor :
      (raw : List ℕ) (s : Scan) (xs : List ℕ)
      → OkAll (IsAt (s.cursor + length xs)) (scan json article raw s xs)
  unfolding scan
  scan-cursor raw s [] = omega arith
  scan-cursor raw s (x ∷ xs) =
      >>=-OkAll (IsAt (s.cursor + 1)) (IsAt (s.cursor + length (x ∷ xs)))
        (step json article raw s x) (λ t. scan json article raw t xs)
        (step-cursor json article raw s x)
        (λ t at.
          subst (λ n. OkAll (IsAt n) (scan json article raw t xs)) (omega (arith, at))
            (scan-cursor raw t xs))

module _ (json : JsonApi) where
  -- The chunks of an answer, in the order in which they come.
  unfoldable pub feed : VerifiedSegments → List (List ℕ) → Result AiError VerifiedSegments
  unfolding push
  feed v [] = ok v
  feed v (chunk ∷ chunks) = push json v chunk >>= λ r. feed r.0 chunks

  -- Everything received was scanned, and what comes fits.
  record IsReady (v : VerifiedSegments) (more : ℕ) : Type 0 where
    pub read : v.state.cursor ≡ length v.raw
    pub room : length v.raw + more ≤ v.limit
    pub small : v.limit < u64_mod

  output : VerifiedSegments → List ℕ → Scan → VerifiedSegments × Option Text
  output v text t = (
    record v { raw = v.raw ++ text; state = t },
    if ltb v.state.emitted t.emitted then some t.content else none,
  )

  drop-length : (xs ys : List ℕ) (n : ℕ) → n ≡ length xs → drop n (xs ++ ys) ≡ ys
  drop-length xs ys n e = rw e (drop_all xs ys)
    where
      drop_all : (xs ys : List ℕ) → drop (length xs) (xs ++ ys) ≡ ys
      drop_all [] ys = refl
      drop_all (x ∷ xs) ys = drop_all xs ys

  push-scan :
      (v : VerifiedSegments) (text : List ℕ)
      → IsReady v (length text)
      → push json v text
        ≡ (scan json v.article (v.raw ++ text) v.state text >>= λ t. ok (output v text t))
  unfolding push output checked_add
  push-scan v text h =
      let fits_ : ltb (length v.raw + length text) u64_mod ≡ true =
        ground (arith, h.room, h.small) in
      let within : ltb v.limit (length v.raw + length text) ≡ false = ground (arith, h.room) in
      rw (fits_, within, drop-length v.raw text v.state.cursor h.read) refl

  feed-scan :
      (v : VerifiedSegments) (chunks : List (List ℕ))
      → IsReady v (length (flatten chunks))
      → feed v chunks ≡ (
          scan json v.article (v.raw ++ flatten chunks) v.state (flatten chunks) >>= λ t.
          ok (record v { raw = v.raw ++ flatten chunks; state = t }))
  unfolding feed flatten scan output
  feed-scan v [] h = rw (append-nil v.raw) refl
  feed-scan v (c ∷ cs) h =
      let rest = flatten cs in
      let whole = v.raw ++ (c ++ rest) in
      let both = length-append c rest in
      let K : Scan → Result AiError VerifiedSegments =
        λ t. ok (record v { raw = whole; state = t }) in
      let first : IsReady v (length c) = record {
        read = h.read;
        room = omega (arith, h.room, both);
        small = h.small;
      } in
      let here : scan json v.article whole v.state c ≡ scan json v.article (v.raw ++ c) v.state c =
        subst (λ r. scan json v.article r v.state c ≡ scan json v.article (v.raw ++ c) v.state c)
          (append_assoc v.raw c rest)
          (scan-more json v.article (v.raw ++ c) rest v.state c
            (omega (arith, h.read, length-append v.raw c))) in
      ap (λ m. m >>= λ r. feed r.0 cs) (push-scan v c first)
      ∙ >>=-assoc (scan json v.article (v.raw ++ c) v.state c) (λ t. ok (output v c t))
          (λ r. feed r.0 cs)
      ∙ >>=-All (IsAt (v.state.cursor + length c)) (scan json v.article (v.raw ++ c) v.state c)
          (λ t. feed (output v c t).0 cs) (λ t. scan json v.article whole t rest >>= K)
          (scan-cursor json v.article (v.raw ++ c) v.state c)
          (λ t at.
            subst
              (λ r.
                feed (output v c t).0 cs
                ≡ (scan json v.article r t rest >>= λ u. ok (record v { raw = r; state = u })))
              (append_assoc v.raw c rest)
              (feed-scan (output v c t).0 cs (record {
                read = omega (arith, at, h.read, length-append v.raw c);
                room = omega (arith, h.room, both, length-append v.raw c);
                small = h.small;
              })))
      ∙ sym (
          >>=-assoc (scan json v.article (v.raw ++ c) v.state c)
            (λ t. scan json v.article whole t rest) K)
      ∙ ap (λ m. (m >>= λ t. scan json v.article whole t rest) >>= K) (sym here)
      ∙ ap (λ m. m >>= K) (sym (scan-append json v.article whole v.state c rest))

  -- However an answer that fits the limit is cut into chunks, the scan accepts the same segments, or
  -- ends in the same error, as if the answer came at once.
  pub feed-push :
      (article : Text) (limit : ℕ) (chunks : List (List ℕ))
      → length (flatten chunks) ≤ limit
      → limit < u64_mod
      → feed (new article limit) chunks
        ≡ (push json (new article limit) (flatten chunks) >>= λ r. ok r.0)
  unfolding new output
  feed-push article limit chunks room small =
      let ready : IsReady (new article limit) (length (flatten chunks)) = record {
        read = refl;
        room = omega (arith, room);
        small = small;
      } in
      feed-scan (new article limit) chunks ready
      ∙ sym (
          ap (λ m. m >>= λ r. ok r.0) (push-scan (new article limit) (flatten chunks) ready)
          ∙ >>=-assoc
              (scan json article (flatten chunks) (new article limit).state (flatten chunks))
              (λ t. ok (output (new article limit) (flatten chunks) t)) (λ r. ok r.0))
