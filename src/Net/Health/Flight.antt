-- ===== src/Net/Health/Flight.antt =====
-- Recovery probes are single-flight: what a claim, a `finish` and a drop, each under its own lock,
-- do to the marks of the endpoints that attempts probe.
pub mod Runs
use inoreader.Prelude.{
  ℕ, zero, suc, ◌+◌, ◌≡◌, refl, ap, sym, ◌∙◌, Bool, true, false, not, ◌&&◌, ◌||◌, Option, none,
  some, List, [], ◌∷◌, ◌++◌, arith, ◌==◌, nat_eq, list_eq, eq_of_==, ==_refl, eqb_iff, get_elem?,
  modify, if◌then◌else◌, Bool-cases, Option-cases, inl, inr, length, any, subst, Result, ok, err,
  ◌!=◌, ◌⊎◌, ==_sym, All, All-map, map_option, is_some, &&-eq_true,
}
use inoreader.Prelude.Text.{Text}
use inoreader.Net.Health.{
  EndpointHealth, EndpointAttempt, RouteHealth, Hosts, Key, find_host, put_host, candidates,
  min_key, start, probe_of, take_endpoint, claim_states, claim, settle, release, update_host,
  finish_result, finish, drop, new,
}
use inoreader.Net.Health.Choice.{IsCandidate, min_key_lem}

abbrev flag : Option EndpointHealth → Bool
flag none = false
flag (some s) = s.probing

abbrev flag_in : Option (List EndpointHealth) → ℕ → Bool
flag_in none j = false
flag_in (some states) j = flag (get_elem? states j)

-- Whether the endpoint of that index is marked as probed for that host.
abbrev pub is_probed : RouteHealth → Text → ℕ → Bool
is_probed r host j = flag_in (find_host host r.hosts) j

==_replaced : (k host h : Text) → (k == h) ≡ true → (k == host) ≡ false → (host == h) ≡ false
==_replaced k host h same other = ==_sym host h ∙ rw (← eq_of_== k h same) other

pub find_host-put_host :
    (host h : Text) (states old : List EndpointHealth) (hosts : Hosts)
    → find_host host hosts ≡ some old
    → find_host h (put_host host states hosts)
      ≡ (if host == h then some states else find_host h hosts)
unfolding find_host put_host
find_host-put_host host h states old [] e = cc
find_host-put_host host h states old ((k, s) ∷ hosts) e = elim (Bool-cases (k == host)) [
  | inl same ↦
      rw (eq_of_== k host same, ==_refl host)
        (elim (Bool-cases (host == h)) [
          | inl this ↦ rw (this, find_host) refl
          | inr that ↦ rw (that, find_host) refl
        ])
  | inr other ↦
      let rest = find_host-put_host host h states old hosts (cc (rw other at e)) in
      elim (Bool-cases (k == h)) [
        | inl this ↦ rw (other, find_host, this, ==_replaced k host h this other) refl
        | inr that ↦ rw (other, find_host, that) rest
      ]
]

pub get_elem?-modify :
    (i j : ℕ) (f : EndpointHealth → EndpointHealth) (xs : List EndpointHealth)
    → get_elem? (modify i f xs) j
      ≡ (if i == j then map_option f (get_elem? xs j) else get_elem? xs j)
get_elem?-modify i j f [] = ground arith
get_elem?-modify zero zero f (x ∷ xs) = refl
get_elem?-modify zero (suc j) f (x ∷ xs) = ground arith
get_elem?-modify (suc i) zero f (x ∷ xs) = ground arith
get_elem?-modify (suc i) (suc j) f (x ∷ xs) = ground (arith, get_elem?-modify i j f xs)

-- The record after a write to one endpoint of a host.
abbrev written :
    RouteHealth → Text → ℕ → (EndpointHealth → EndpointHealth) → List EndpointHealth → RouteHealth
written r host i f states = record r { hosts = put_host host (modify i f states) r.hosts }

is_probed-written :
    (r : RouteHealth) (host h : Text) (i j : ℕ) (f : EndpointHealth → EndpointHealth)
    (states : List EndpointHealth)
    → find_host host r.hosts ≡ some states
    → is_probed (written r host i f states) h j
      ≡ (if host == h && i == j then flag (map_option f (get_elem? states i)) else is_probed r h j)
is_probed-written r host h i j f states e =
    rw (find_host-put_host host h (modify i f states) states r.hosts e)
      (elim (Bool-cases (host == h)) [
        | inl this ↦
            rw (this, get_elem?-modify i j f states, ← eq_of_== host h this, e)
              (elim (Bool-cases (i == j)) [
                | inl at ↦ rw (at, (eqb_iff i j).0 at) refl
                | inr elsewhere ↦ rw elsewhere refl
              ])
        | inr that ↦ rw that refl
      ])

-- The two attempts are on one endpoint of one host.
abbrev pub same_endpoint : EndpointAttempt → EndpointAttempt → Bool
same_endpoint a b = a.host == b.host && a.index == b.index

-- The attempt probes its endpoint, and was not finished.
abbrev pub is_probing : EndpointAttempt → Bool
is_probing a = a.probe && not a.finished

-- The two attempts do not both probe one endpoint.
abbrev pub Differs : EndpointAttempt → EndpointAttempt → Type 0
Differs a b = (is_probing a && is_probing b && same_endpoint a b) ≡ false

-- No two of the attempts probe one endpoint.
abbrev pub AreApart : List EndpointAttempt → Type 0
AreApart [] = Unit
AreApart (a ∷ live) = All (Differs a) live × AreApart live

-- The endpoint that the attempt probes, if it does, is marked.
abbrev pub IsMarked : RouteHealth → EndpointAttempt → Type 0
IsMarked r a = (not (is_probing a) || is_probed r a.host a.index) ≡ true

-- A write to the endpoint of `a` leaves the marks of the attempts that differ from it.
is_probed-other :
    (r : RouteHealth) (a b : EndpointAttempt) (f : EndpointHealth → EndpointHealth)
    (states : List EndpointHealth)
    → find_host a.host r.hosts ≡ some states
    → same_endpoint a b ≡ false
    → is_probed (written r a.host a.index f states) b.host b.index ≡ is_probed r b.host b.index
is_probed-other r a b f states e other =
    rw (is_probed-written r a.host b.host a.index b.index f states e, other) refl

flag-map_option :
    (f : EndpointHealth → EndpointHealth) (o : Option EndpointHealth)
    → ((s : EndpointHealth) → (f s).probing ≡ s.probing)
    → flag (map_option f o) ≡ flag o
flag-map_option f none keeps = refl
flag-map_option f (some s) keeps = keeps s

module _ (r : RouteHealth) (a b : EndpointAttempt) (f : EndpointHealth → EndpointHealth) where
  -- A write to an endpoint that `b` does not probe.
  IsMarked-apart :
      (o : Option (List EndpointHealth))
      → find_host a.host r.hosts ≡ o
      → (is_probing b && same_endpoint a b) ≡ false
      → IsMarked r b
      → IsMarked (update_host r a f o) b
  IsMarked-apart none e other h = h
  IsMarked-apart (some states) e other h = elim (Bool-cases (is_probing b)) [
    | inl probe ↦ rw (is_probed-other r a b f states e (ground (arith, probe, other))) h
    | inr plain ↦ ground (arith, plain)
  ]

  -- A write that leaves the mark of every endpoint.
  IsMarked-keeps :
      (o : Option (List EndpointHealth))
      → find_host a.host r.hosts ≡ o
      → ((s : EndpointHealth) → (f s).probing ≡ s.probing)
      → IsMarked r b
      → IsMarked (update_host r a f o) b
  IsMarked-keeps none e keeps h = h
  IsMarked-keeps (some states) e keeps h = elim (Bool-cases (same_endpoint a b)) [
    | inl same ↦
        let (hosts, indices) = &&-eq_true (a.host == b.host) (a.index == b.index) same in
        let was : is_probed r b.host b.index ≡ flag (get_elem? states a.index) =
          rw (← eq_of_== a.host b.host hosts, e, (eqb_iff a.index b.index).0 indices) refl in
        let now : is_probed (written r a.host a.index f states) b.host b.index
            ≡ is_probed r b.host b.index =
          is_probed-written r a.host b.host a.index b.index f states e
          ∙ rw same (flag-map_option f (get_elem? states a.index) keeps ∙ sym was) in
        rw now h
    | inr other ↦ rw (is_probed-other r a b f states e other) h
  ]

settle-probing :
    (success : Bool) (now : ℕ) (s : EndpointHealth)
    → (settle false success now s).probing ≡ s.probing
unfolding settle
settle-probing success now s = refl

module _ (r : RouteHealth) (a b : EndpointAttempt) where
  IsMarked-settled :
      (success : Bool) (now : ℕ) (o : Option (List EndpointHealth))
      → find_host a.host r.hosts ≡ o
      → a.finished ≡ false
      → Differs a b
      → IsMarked r b
      → IsMarked (update_host r a (settle a.probe success now) o) b
  IsMarked-settled success now o e open_ d h = elim (Bool-cases a.probe) [
    | inl probe ↦
        IsMarked-apart r a b (settle a.probe success now) o e (ground (arith, probe, open_, d)) h
    | inr plain ↦
        rw plain
          (IsMarked-keeps r a b (settle false success now) o e (settle-probing success now) h)
  ]

  pub IsMarked-drop : Differs a b → IsMarked r b → IsMarked (drop r a) b
  unfolding drop
  IsMarked-drop d h = elim (Bool-cases (a.probe && not a.finished)) [
    | inl pending ↦ rw pending (
        IsMarked-apart r a b release (find_host a.host r.hosts) refl (ground (arith, pending, d)) h)
    | inr done ↦ rw done h
  ]

  pub IsMarked-finish :
      (success : Bool) (now : ℕ)
      → a.finished ≡ false
      → Differs a b
      → IsMarked r b
      → IsMarked (finish r a success now).0 b
  unfolding finish
  IsMarked-finish success now open_ d h =
      IsMarked-settled success now (find_host a.host r.hosts) refl open_ d h

-- An attempt is as it was after `finish` on a host that the record does not know, and else finished.
pub finish-attempt :
    (r : RouteHealth) (a : EndpointAttempt) (success : Bool) (now : ℕ)
    → ((finish r a success now).1 ≡ a) × ((finish r a success now).0 ≡ r)
      ⊎ ((finish r a success now).1 ≡ record a { finished = true })
unfolding finish
finish-attempt r a success now = elim (Option-cases (find_host a.host r.hosts)) [
  | inl missing ↦ rw missing (inl (refl, refl))
  | inr (states, found) ↦ rw found (inr refl)
]
