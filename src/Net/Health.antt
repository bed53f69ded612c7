-- ===== src/Net/Health.antt =====
-- crates/reader-web-runtime/src/public_proxy/health.rs, `RouteHealth` and `EndpointAttempt`: the health of the endpoints
-- through which each host is reached, and the attempts that claim them. A `Mutex` makes each
-- method one step; its poisoning by a panic is not modelled. An `Instant` is a number, and
-- `duration_since` stops at 0, as the subtraction here does. The map of hosts is a list.
pub mod Choice
pub mod Flight
use inoreader.Prelude.{
  is_some, ℕ, zero, suc, ◌+◌, ◌-◌, Bool, true, false, not, ◌&&◌, ◌||◌, Option, none, some, List, [],
  ◌∷◌, map, ◌==◌, ◌!=◌, nat_eq, list_eq, if◌then◌else◌, leb, ltb, length, get_elem?, modify, any,
  replicate, Result, ok, err,
}
use inoreader.Prelude.Text.{Text, codes}

pub record EndpointHealth : Type 0 where
  pub failed_at : Option ℕ
  pub last_attempt : Option ℕ
  pub probing : Bool
  pub healthy : Bool

abbrev pub Hosts : Type 0
Hosts = List (Text × List EndpointHealth)

pub record RouteHealth : Type 0 where
  pub hosts : Hosts
  pub quarantine : ℕ

-- The attempt that a claim hands out; its `state` is the one `RouteHealth`.
pub record EndpointAttempt : Type 0 where
  pub host : Text
  pub index : ℕ
  pub probe : Bool
  pub finished : Bool

-- `EndpointHealth::default()`
abbrev pub default_health : EndpointHealth
default_health = record { failed_at = none; last_attempt = none; probing = false; healthy = false }

unfoldable pub new : List Text → ℕ → ℕ → RouteHealth
new hosts endpoints quarantine = record {
  hosts = map (λ host. (host, replicate endpoints default_health)) hosts;
  quarantine = quarantine;
}

unfoldable pub find_host : Text → Hosts → Option (List EndpointHealth)
find_host host [] = none
find_host host ((h, states) ∷ rest) = if h == host then some states else find_host host rest

-- The write through `get_mut`.
unfoldable pub put_host : Text → List EndpointHealth → Hosts → Hosts
put_host host new_states [] = []
put_host host new_states ((h, states) ∷ rest) =
    if h == host then (h, new_states) ∷ rest else (h, states) ∷ put_host host new_states rest

-- `failed_at.is_none_or(|at| now.duration_since(at) >= quarantine)`
abbrev pub is_due : ℕ → ℕ → Option ℕ → Bool
is_due quarantine now none = true
is_due quarantine now (some at) = leb quarantine (now - at)

unfoldable pub eligible : ℕ → ℕ → Bool → EndpointHealth → Bool
eligible quarantine now attempted s =
    not attempted && not s.probing && is_due quarantine now s.failed_at

abbrev pub priority : Bool → Bool → Bool → ℕ
priority true healthy true = 0
priority false true first = 1
priority false false first = 2
priority true healthy false = 3

-- The key of `min_by_key`, compared in the order of its fields.
pub record Key : Type 0 where
  pub rank : ℕ
  pub since : Option ℕ
  pub index : ℕ

-- `failed_at.and(last_attempt)`
abbrev pub and_then : Option ℕ → Option ℕ → Option ℕ
and_then none b = none
and_then (some a) b = b

unfoldable pub key_of : Bool → ℕ → EndpointHealth → Key
key_of first i s = record {
  rank = priority (is_some s.failed_at) s.healthy first;
  since = and_then s.failed_at s.last_attempt;
  index = i;
}

-- `None` sorts before `Some`.
abbrev pub option_rank : Option ℕ → ℕ
option_rank none = 0
option_rank (some t) = suc t

unfoldable pub key_lt : Key → Key → Bool
key_lt a b =
    ltb a.rank b.rank
    || (a.rank == b.rank
        && (ltb (option_rank a.since) (option_rank b.since)
            || (option_rank a.since == option_rank b.since && ltb a.index b.index)))

-- `enumerate().filter(..)` with the keys of what is left; `i` is the index of the first state.
unfoldable pub candidates : ℕ → ℕ → Bool → ℕ → List Bool → List EndpointHealth → List Key
unfolding eligible key_of
candidates quarantine now first i (a ∷ attempted) (s ∷ states) =
    let rest = candidates quarantine now first (suc i) attempted states in
    if eligible quarantine now a s then key_of first i s ∷ rest else rest
candidates quarantine now first i _ _ = []

unfoldable pub min_from : Key → List Key → Key
min_from best [] = best
min_from best (k ∷ ks) = min_from (if key_lt k best then k else best) ks

-- `min_by_key`
abbrev pub min_key : List Key → Option Key
min_key [] = none
min_key (k ∷ ks) = some (min_from k ks)

-- The writes of `claim` on the endpoint that it takes.
unfoldable pub start : ℕ → EndpointHealth → EndpointHealth
start now s =
    if is_some s.failed_at
    then record s { last_attempt = some now; probing = true }
    else record s { last_attempt = some now }

abbrev pub probe_of : Option EndpointHealth → Bool
probe_of none = false
probe_of (some s) = is_some s.failed_at

-- `claim` behind the choice of an endpoint.
abbrev pub take_endpoint :
    RouteHealth → Text → List EndpointHealth → ℕ → Option Key → RouteHealth × Option EndpointAttempt
take_endpoint r host states now none = (r, none)
take_endpoint r host states now (some k) = (
  record r { hosts = put_host host (modify k.index (start now) states) r.hosts },
  some (record {
    host = host;
    index = k.index;
    probe = probe_of (get_elem? states k.index);
    finished = false;
  }),
)

abbrev pub claim_states :
    RouteHealth
    → Text
    → List Bool
    → ℕ
    → Option (List EndpointHealth)
    → RouteHealth × Result Text (Option EndpointAttempt)
claim_states r host attempted now none = (r, err (codes "proxy_health_host"))
claim_states r host attempted now (some states) =
    if length attempted != length states
    then (r, err (codes "proxy_health_endpoints"))
    else let first = not (any (λ v. v) attempted) in
      let (r', attempt) =
        take_endpoint r host states now
          (min_key (candidates r.quarantine now first 0 attempted states)) in
      (r', ok attempt)

unfoldable pub claim :
    RouteHealth → Text → List Bool → ℕ → RouteHealth × Result Text (Option EndpointAttempt)
unfolding find_host put_host start candidates min_from any
claim r host attempted now = claim_states r host attempted now (find_host host r.hosts)

-- The writes of `finish`.
unfoldable pub settle : Bool → Bool → ℕ → EndpointHealth → EndpointHealth
settle probe success now s = record s {
  failed_at = if success then none else some now;
  probing = if probe then false else s.probing;
  healthy = success;
}

unfoldable pub release : EndpointHealth → EndpointHealth
release s = record s { probing = false }

abbrev pub update_host :
    RouteHealth
    → EndpointAttempt
    → (EndpointHealth → EndpointHealth)
    → Option (List EndpointHealth)
    → RouteHealth
update_host r a f none = r
update_host r a f (some states) = record r {
  hosts = put_host a.host (modify a.index f states) r.hosts;
}

abbrev pub finish_result :
    EndpointAttempt → Option (List EndpointHealth) → EndpointAttempt × Result Text (Unit {0})
finish_result a none = (a, err (codes "proxy_health_host"))
finish_result a (some states) = (record a { finished = true }, ok tt)

unfoldable pub finish :
    RouteHealth
    → EndpointAttempt
    → Bool
    → ℕ
    → RouteHealth × EndpointAttempt × Result Text (Unit {0})
unfolding find_host put_host settle
finish r a success now =
    let found = find_host a.host r.hosts in
    let (a', result) = finish_result a found in
    (update_host r a (settle a.probe success now) found, a', result)

-- `Drop for EndpointAttempt`
unfoldable pub drop : RouteHealth → EndpointAttempt → RouteHealth
unfolding find_host put_host release
drop r a =
    if a.probe && not a.finished then update_host r a release (find_host a.host r.hosts) else r
