-- ===== src/Net/Health/Flight/Runs.antt =====
-- Any sequence of claims, calls of `finish` and drops, each one locked step.
use inoreader.Prelude.{
  ℕ, ◌≡◌, refl, Bool, true, false, not, ◌&&◌, Option, none, some, List, [], ◌∷◌, ◌++◌, arith, ◌==◌,
  ◌!=◌, nat_eq, list_eq, eq_of_==, ==_refl, eqb_iff, get_elem?, Bool-cases, Option-cases, inl, inr,
  length, any, Result, ok, All, All-map, All-map₂, &&-eq_true, ==_sym,
}
use inoreader.Prelude.Text.{Text}
use inoreader.Net.Health.{
  EndpointHealth, EndpointAttempt, RouteHealth, Key, key_of, find_host, candidates, min_key, start,
  probe_of, take_endpoint, claim_states, claim, finish, drop, new,
}
use inoreader.Net.Health.Choice.{IsCandidate, min_key_lem}
use inoreader.Net.Health.Flight.{
  is_probed, is_probed-written, same_endpoint, Differs, AreApart, IsMarked, IsMarked-apart,
  IsMarked-drop, IsMarked-finish, is_probing, finish-attempt,
}

-- The attempts that no one has dropped yet, finished ones among them.
pub record World : Type 0 where
  pub health : RouteHealth
  pub live : List EndpointAttempt

-- A claim that hands out an attempt adds it.
abbrev pub add : Result Text (Option EndpointAttempt) → List EndpointAttempt → List EndpointAttempt
add (ok (some a)) live = a ∷ live
add _ live = live

abbrev pub world : RouteHealth → List EndpointAttempt → World
world r live = record { health = r; live = live }

-- `finish` and the drop of an attempt take the lock each for itself, so that steps of others may come
-- between; no caller finishes an attempt again, and each drops it, finished or not.
pub data Step : World → World → Type 0 where
  claimed :
      {r : RouteHealth} {live : List EndpointAttempt} (host : Text) (attempted : List Bool)
      (now : ℕ)
      → Step
          (world r live)
          (world (claim r host attempted now).0 (add (claim r host attempted now).1 live))
  finished :
      {r : RouteHealth} (xs : List EndpointAttempt) (a : EndpointAttempt)
      (ys : List EndpointAttempt) (success : Bool) (now : ℕ)
      → a.finished ≡ false
      → Step
          (world r (xs ++ a ∷ ys))
          (world (finish r a success now).0 (xs ++ (finish r a success now).1 ∷ ys))
  dropped :
      {r : RouteHealth} (xs : List EndpointAttempt) (a : EndpointAttempt)
      (ys : List EndpointAttempt)
      → Step (world r (xs ++ a ∷ ys)) (world (drop r a) (xs ++ ys))

-- What the steps lead to from a new record with no attempts.
pub data Reaches (hosts : List Text) (endpoints quarantine : ℕ) : World → Type 0 where
  begin : Reaches hosts endpoints quarantine (world (new hosts endpoints quarantine) [])
  then_ :
      {w w' : World}
      → Reaches hosts endpoints quarantine w
      → Step w w'
      → Reaches hosts endpoints quarantine w'

abbrev IsHeld : RouteHealth → List EndpointAttempt → Type 0
IsHeld r live = AreApart live × All (IsMarked r) live

-- The attempt that a claim hands out for the key that it chose.
abbrev attempt : Text → List EndpointHealth → Key → EndpointAttempt
attempt host states k = record {
  host = host;
  index = k.index;
  probe = probe_of (get_elem? states k.index);
  finished = false;
}

module _ (r : RouteHealth) (host : Text) (states : List EndpointHealth) (now : ℕ) (first : Bool)
    (attempted : List Bool) (k : Key) (e : find_host host r.hosts ≡ some states)
    (c : IsCandidate r.quarantine now first attempted states 0 k) where
  index-at : k.index ≡ c.at
  unfolding key_of
  index-at = rw c.key (omega arith)

  chosen : get_elem? states k.index ≡ some c.state
  chosen = rw index-at c.here

  not_probed : is_probed r host k.index ≡ false
  not_probed = rw (e, chosen) c.idle

  fresh :
      (b : EndpointAttempt)
      → IsMarked r b
      → (is_probing b && same_endpoint (attempt host states k) b) ≡ false
  fresh b h = elim (Bool-cases (same_endpoint (attempt host states k) b)) [
    | inr other ↦ rw other (ground arith)
    | inl same ↦
        let (hosts, indices) = &&-eq_true (host == b.host) (k.index == b.index) same in
        let idle : is_probed r b.host b.index ≡ false =
          rw (← eq_of_== host b.host hosts, ← (eqb_iff k.index b.index).0 indices) not_probed in
        ground (arith, h, idle)
  ]

  attempt-IsMarked : IsMarked (take_endpoint r host states now (some k)).0 (attempt host states k)
  unfolding start
  attempt-IsMarked =
      rw
        (
          is_probed-written r host host k.index k.index (start now) states e,
          ==_refl host,
          (eqb_iff k.index k.index).1 refl,
          chosen,
        )
        (ground arith)

  take_endpoint-IsHeld :
      (live : List EndpointAttempt)
      → IsHeld r live
      → IsHeld (take_endpoint r host states now (some k)).0 (attempt host states k ∷ live)
  take_endpoint-IsHeld live h = (
    (All-map (λ b m. ground (arith, fresh b m)) live h.1, h.0),
    (
      attempt-IsMarked,
      All-map
          (λ b m.
            IsMarked-apart r (attempt host states k) b (start now) (some states) e (fresh b m) m)
          live h.1,
    ),
  )

claim_states-IsHeld :
    (r : RouteHealth) (live : List EndpointAttempt) (host : Text) (attempted : List Bool) (now : ℕ)
    (o : Option (List EndpointHealth))
    → find_host host r.hosts ≡ o
    → IsHeld r live
    → IsHeld
        (claim_states r host attempted now o).0
        (add (claim_states r host attempted now o).1 live)
claim_states-IsHeld r live host attempted now none e h = h
claim_states-IsHeld r live host attempted now (some states) e h =
    elim (Bool-cases (length attempted != length states)) [
      | inl unlike ↦ rw unlike h
      | inr alike ↦
          let first = not (any (λ v. v) attempted) in
          rw alike
            (elim (Option-cases (min_key (candidates r.quarantine now first 0 attempted states))) [
              | inl empty ↦ rw empty h
              | inr (k, best) ↦ rw best (
                  take_endpoint-IsHeld r host states now first attempted k e
                    (min_key_lem r.quarantine now first attempted states k best).0 live h)
            ])
    ]

All-remove {ℓ κ} :
    {A : Type ℓ} (P : A → Type κ) (xs : List A) (a : A) (ys : List A)
    → All P (xs ++ a ∷ ys)
    → P a × All P (xs ++ ys)
All-remove P [] a ys h = h
All-remove P (x ∷ xs) a ys h = let (p, rest) = All-remove P xs a ys h.1 in (p, (h.0, rest))

Differs-sym : (a b : EndpointAttempt) → Differs a b → Differs b a
Differs-sym a b d = rw (==_sym b.host a.host, ==_sym b.index a.index) (ground (arith, d))

AreApart-remove :
    (xs : List EndpointAttempt) (a : EndpointAttempt) (ys : List EndpointAttempt)
    → AreApart (xs ++ a ∷ ys)
    → All (Differs a) (xs ++ ys) × AreApart (xs ++ ys)
AreApart-remove [] a ys h = h
AreApart-remove (x ∷ xs) a ys h =
    let (here, others) = All-remove (Differs x) xs a ys h.0 in
    let (rest, apart) = AreApart-remove xs a ys h.1 in
    ((Differs-sym x a here, rest), (others, apart))

-- An attempt is put in the place of another.
All-replace {ℓ κ} :
    {A : Type ℓ} (P : A → Type κ) (xs : List A) (a b : A) (ys : List A)
    → P b
    → All P (xs ++ a ∷ ys)
    → All P (xs ++ b ∷ ys)
All-replace P [] a b ys p h = (p, h.1)
All-replace P (x ∷ xs) a b ys p h = (h.0, All-replace P xs a b ys p h.1)

-- A finished attempt differs from all.
closed-Differs : (a b : EndpointAttempt) → Differs (record a { finished = true }) b
closed-Differs a b = ground arith

AreApart-replace :
    (xs : List EndpointAttempt) (a : EndpointAttempt) (ys : List EndpointAttempt)
    → AreApart (xs ++ a ∷ ys)
    → AreApart (xs ++ record a { finished = true } ∷ ys)
AreApart-replace [] a ys h = (All-map (λ b d. closed-Differs a b) ys h.0, h.1)
AreApart-replace (x ∷ xs) a ys h = (
  All-replace (Differs x) xs a (record a { finished = true }) ys
      (Differs-sym (record a { finished = true }) x (closed-Differs a x)) h.0,
  AreApart-replace xs a ys h.1,
)

-- What the other attempts keep, they keep with one in any place.
All-insert {ℓ κ} :
    {A : Type ℓ} (P : A → Type κ) (xs : List A) (b : A) (ys : List A)
    → P b
    → All P (xs ++ ys)
    → All P (xs ++ b ∷ ys)
All-insert P [] b ys p h = (p, h)
All-insert P (x ∷ xs) b ys p h = (h.0, All-insert P xs b ys p h.1)

module _ (r r' : RouteHealth) (xs : List EndpointAttempt) (a : EndpointAttempt)
    (ys : List EndpointAttempt)
    (f : (b : EndpointAttempt) → Differs a b → IsMarked r b → IsMarked r' b)
    (h : IsHeld r (xs ++ a ∷ ys)) where
  removed-IsHeld : IsHeld r' (xs ++ ys)
  removed-IsHeld =
      let (differ, apart) = AreApart-remove xs a ys h.0 in
      let (own, marked) = All-remove (IsMarked r) xs a ys h.1 in
      (apart, All-map₂ f (xs ++ ys) differ marked)

  closed-IsHeld : IsHeld r' (xs ++ record a { finished = true } ∷ ys)
  closed-IsHeld = (
    AreApart-replace xs a ys h.0,
    All-insert (IsMarked r') xs (record a { finished = true }) ys (ground arith) removed-IsHeld.1,
  )

finished-IsHeld :
    (r : RouteHealth) (xs : List EndpointAttempt) (a : EndpointAttempt) (ys : List EndpointAttempt)
    (success : Bool) (now : ℕ)
    → a.finished ≡ false
    → IsHeld r (xs ++ a ∷ ys)
    → IsHeld (finish r a success now).0 (xs ++ (finish r a success now).1 ∷ ys)
finished-IsHeld r xs a ys success now open_ h = elim (finish-attempt r a success now) [
  | inl (same, none_) ↦ rw (same, none_) h
  | inr closed ↦ rw closed (
      closed-IsHeld r (finish r a success now).0 xs a ys
        (λ b d m. IsMarked-finish r a b success now open_ d m) h)
]

Step-IsHeld : {w w' : World} → Step w w' → IsHeld w.health w.live → IsHeld w'.health w'.live
unfolding claim
Step-IsHeld (claimed {r} {live} host attempted now) h =
    claim_states-IsHeld r live host attempted now (find_host host r.hosts) refl h
Step-IsHeld (finished {r} xs a ys success now open_) h =
    finished-IsHeld r xs a ys success now open_ h
Step-IsHeld (dropped {r} xs a ys) h =
    removed-IsHeld r (drop r a) xs a ys (λ b d m. IsMarked-drop r a b d m) h

Reaches-IsHeld :
    (hosts : List Text) (endpoints quarantine : ℕ) {w : World}
    → Reaches hosts endpoints quarantine w
    → IsHeld w.health w.live
Reaches-IsHeld hosts endpoints quarantine begin = (tt, tt)
Reaches-IsHeld hosts endpoints quarantine (then_ reached step) =
    Step-IsHeld step (Reaches-IsHeld hosts endpoints quarantine reached)

-- Whatever claims, calls of finish and drops there were since the record was made, in whatever order
-- and with whatever steps of others between the finish of an attempt and its drop, no two of the held
-- attempts that are not finished probe the same endpoint of the same host, and the endpoint of each
-- that probes is marked; no attempt is finished twice.
pub single_flight :
    (hosts : List Text) (endpoints quarantine : ℕ) {w : World}
    → Reaches hosts endpoints quarantine w
    → AreApart w.live × All (IsMarked w.health) w.live
single_flight hosts endpoints quarantine reached = Reaches-IsHeld hosts endpoints quarantine reached
