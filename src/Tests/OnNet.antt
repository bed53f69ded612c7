-- ===== src/Tests/OnNet.antt =====
-- The theorems on outbound requests and proxy health, applied to concrete values.
use mathlib.Core.Bool.{true≢false}
use mathlib.Core.List.{flatten}
use mathlib.Core.List.{Permᴰ}
use mathlib.Core.List.Permᴰ
use inoreader.Prelude.{
  Option, ℕ, ◌≤◌, ◌≡◌, ◌≢◌, refl, ◌↔◌, true, false, none, some, List, [], ◌∷◌, ◌+◌, map, arith,
  ◌==◌, ◌!=◌, nat_eq, list_eq, list_beq, option_beq, length, ok, err, contains, any, IsDistinct,
  All, for_each, ap, sym, ◌∙◌, ==_refl,
}
use inoreader.Prelude.Text.{Text, codes, is_empty}
use inoreader.Net.Error.{Ipv4Addr, IpAddr, v4, v6, response_body_too_large}
use inoreader.Net.Address.{forbidden, forbidden_v4, validate_public_address, ip_eq, ip_beq, v4_beq}
use inoreader.Net.Address.Blocks.{
  IsAddr, number, within, special_blocks, mapped, translated, forbidden_v4-any, forbidden_carried,
}
use inoreader.Net.Limits.{OutboundLimits, RawBrowserLimits}
use inoreader.Net.Policy.{
  OutboundPolicy, ResolvedTarget, ConnectionAuthorization, validate_url, restricted_to_origin,
  authorize_resolution, connection, verify_connected_peer, origin, Origin, origin_eq, origin_beq,
  to_ascii_lowercase, check_scheme,
}
use inoreader.Net.Policy.Permitted.{IsPermitted, validate_url_iff, restricted_to_origin_lem}
use inoreader.Net.Policy.Peer.{verified_peer}
use inoreader.Net.Redirect
use inoreader.Net.Redirect.{Header, Removes, PreparedRequest, for_redirect, filter}
use inoreader.Net.Redirect.Headers.{for_redirect-cross_origin, Stripped}
use inoreader.Net.Redirect.Hops.{run, run_bounded}
use inoreader.Net.Body
use inoreader.Net.Body.{read_all, read_all-within, read_all-over}
use inoreader.Net.Health.{
  EndpointHealth, candidates, min_key, key_of, key_lt, eligible, default_health, min_from,
}
use inoreader.Net.Health
use inoreader.Net.Health.{
  RouteHealth, EndpointAttempt, claim, finish, drop, settle, find_host, put_host, start,
}
use inoreader.Net.Health.Flight.{AreApart, IsMarked}
use inoreader.Net.Health.Flight.Runs.{
  Reaches, begin, then_, claimed, finished, dropped, world, single_flight,
}
use inoreader.Net.Health.Choice.Claimed.{IsClaim, claim-IsClaim}
use inoreader.Tests.{rotate, toy_urls, toy_headers, feed, other_feed}

abbrev limits : OutboundLimits
limits = record {
  connect_timeout = 1000;
  request_deadline = 5000;
  max_redirect_hops = 2;
  max_response_body_bytes = 4;
}

abbrev policy : OutboundPolicy
policy = record {
  allow_plain_http = false;
  allowed_plain_http_hosts = [];
  limits = limits;
  allowed_origin = none;
}

abbrev router : Ipv4Addr
router = record { a = 192; b = 168; c = 1; d = 1 }

router-IsAddr : IsAddr router
router-IsAddr = record {
  a_lt = omega arith;
  b_lt = omega arith;
  c_lt = omega arith;
  d_lt = omega arith;
}

forbidden_v4-any_example : forbidden_v4 router ≡ any (within (number router)) special_blocks
forbidden_v4-any_example = forbidden_v4-any router router-IsAddr

forbidden_carried_example :
    (forbidden (v6 (mapped router)) ≡ any (within (number router)) special_blocks)
    × (forbidden (v6 (translated router)) ≡ any (within (number router)) special_blocks)
forbidden_carried_example = forbidden_carried router router-IsAddr

validate_url_iff_example :
    (validate_url toy_urls policy feed ≡ ok tt) ↔ IsPermitted toy_urls policy feed
validate_url_iff_example = validate_url_iff toy_urls policy feed

abbrev narrow : OutboundPolicy
narrow = record policy { allowed_origin = some (origin toy_urls feed) }

narrowed_policy : restricted_to_origin toy_urls policy feed ≡ ok narrow
unfolding restricted_to_origin validate_url check_scheme is_empty list_beq
narrowed_policy = refl

restricted_to_origin_lem_example :
    (validate_url toy_urls policy feed ≡ ok tt)
    × ((next : Text)
        → (validate_url toy_urls narrow next ≡ ok tt) ↔ (
            (validate_url toy_urls policy next ≡ ok tt)
            × (origin toy_urls next ≡ origin toy_urls feed)))
restricted_to_origin_lem_example = restricted_to_origin_lem toy_urls policy feed narrowed_policy

abbrev server : IpAddr
server = v4 (record { a = 93; b = 184; c = 216; d = 34 })

abbrev target : ResolvedTarget Text
target = record { url = feed; addresses = server ∷ [] }

resolved : authorize_resolution toy_urls policy feed (server ∷ []) ≡ ok target
unfolding authorize_resolution validate_url check_scheme is_empty list_beq for_each
    validate_public_address forbidden forbidden_v4
resolved = refl

granted : connection target server ≡ ok (record { url = feed; address = server })
unfolding connection validate_public_address forbidden forbidden_v4 contains ip_beq v4_beq
granted = refl

verified :
    verify_connected_peer
      (let c : ConnectionAuthorization Text = record { url = feed; address = server } in c)
      server
    ≡ ok tt
unfolding verify_connected_peer validate_public_address forbidden forbidden_v4 ip_beq v4_beq
verified = refl

verified_peer_example :
    IsPermitted toy_urls policy feed
    × (feed ≡ feed)
    × (server ≡ server)
    × (contains (server ∷ []) server ≡ true)
    × All (λ a. forbidden a ≡ false) (server ∷ [])
verified_peer_example =
    verified_peer toy_urls policy feed (server ∷ []) server server resolved granted verified

abbrev request : PreparedRequest toy_urls toy_headers
request = record {
  method = codes "GET";
  url = feed;
  headers =
      record { name = codes "host"; value = codes "a.org"; is_sensitive = false }
      ∷ record { name = codes "cookie"; value = codes "k=v"; is_sensitive = false }
      ∷ record { name = codes "accept"; value = codes "*/*"; is_sensitive = false }
      ∷ [];
  body = some (1 ∷ []);
}

other_origin : origin toy_urls feed ≢ origin toy_urls other_feed
unfolding origin to_ascii_lowercase origin_beq list_beq option_beq
other_origin h =
    let there : Origin = origin toy_urls other_feed in
    let equal : (origin toy_urls feed == there) ≡ true =
      ap (λ (o : Origin). o == there) h ∙ ==_refl there in
    let differ : (origin toy_urls feed == there) ≡ false = refl in true≢false (sym equal ∙ differ)

rotate-Permᴰ : (hs : List Header) → Permᴰ (rotate hs) hs
rotate-Permᴰ [] = Permᴰ.nil
rotate-Permᴰ (h ∷ hs) = Permᴰ.trans (Permᴰ.middle h hs []) (Permᴰ.cons refl (Permᴰ.append-nil hs))

toy_headers-Removes : Removes toy_headers
toy_headers-Removes m name = rotate-Permᴰ (filter (λ h. h.name != name) m)

for_redirect-cross_origin_example :
    ((for_redirect toy_urls toy_headers request other_feed).method ≡ codes "GET")
    × ((for_redirect toy_urls toy_headers request other_feed).url ≡ other_feed)
    × ((for_redirect toy_urls toy_headers request other_feed).body ≡ none)
    × All Stripped (for_redirect toy_urls toy_headers request other_feed).headers
for_redirect-cross_origin_example =
    for_redirect-cross_origin toy_urls toy_headers toy_headers-Removes request other_feed
      other_origin

abbrev hops : List (Text × Text)
hops = (feed, other_feed) ∷ (other_feed, feed) ∷ (other_feed, codes "https:c.org") ∷ []

run_bounded_example :
    (length (run toy_urls (Redirect.new toy_urls feed 2) (feed ∷ []) hops).1 ≤ 2 + 1)
    × IsDistinct
        (map (λ (u : Text). u) (run toy_urls (Redirect.new toy_urls feed 2) (feed ∷ []) hops).1)
run_bounded_example = run_bounded toy_urls feed 2 hops

abbrev chunks : List (List ℕ)
chunks = (1 ∷ 2 ∷ []) ∷ (3 ∷ []) ∷ []

read_all-within_example :
    read_all (Body.new 4) chunks ≡ (record { bytes = flatten chunks; limit = 4 }, ok tt)
read_all-within_example = read_all-within 4 chunks (omega arith) (omega arith)

read_all-over_example :
    ((read_all (Body.new 2) chunks).1 ≡ err (response_body_too_large 2))
    × (length (read_all (Body.new 2) chunks).0.bytes ≤ 2)
read_all-over_example = read_all-over 2 chunks (omega arith) (omega arith)

abbrev broken : EndpointHealth
broken = record { failed_at = some 90; last_attempt = some 90; probing = false; healthy = false }

abbrev tried : RouteHealth
tried = record { hosts = (codes "a.org", broken ∷ default_health ∷ []) ∷ []; quarantine = 50 }

-- The quarantine of the first endpoint is not over.
claim-IsClaim_example :
    (r' : RouteHealth) × (o : Option EndpointAttempt) × (claim tried
        (codes "a.org")
        (false ∷ false ∷ [])
        100
      ≡ (r', ok o))
    × IsClaim tried (codes "a.org") (false ∷ false ∷ []) 100 (broken ∷ default_health ∷ []) r' o
unfolding find_host list_beq
claim-IsClaim_example =
    claim-IsClaim tried (codes "a.org") (false ∷ false ∷ []) 100 (broken ∷ default_health ∷ []) refl
      refl

abbrev one_page : RawBrowserLimits
one_page = record {
  max_contexts = 1;
  max_pages_per_context = 1;
  preview_deadline_ms = 20;
  navigation_deadline_ms = 10;
  max_actions = 3;
  max_downloads = 0;
}

abbrev proxied : List Text
proxied = codes "a.org" ∷ []

-- The attempt of a first claim, whose failure quarantines its endpoint, and that of a later one.
abbrev first_attempt : EndpointAttempt
first_attempt = record { host = codes "a.org"; index = 0; probe = false; finished = false }

abbrev probe : EndpointAttempt
probe = record first_attempt { probe = true }

abbrev claimed_at : RouteHealth → ℕ → RouteHealth
claimed_at r now = (claim r (codes "a.org") (false ∷ []) now).0

abbrev after_failure : RouteHealth
after_failure = (finish (claimed_at (Health.new proxied 1 50) 100) first_attempt false 110).0

abbrev after_probe : RouteHealth
after_probe = (finish (claimed_at after_failure 200) probe false 210).0

-- A claim, its failure, a probe that fails, and a second probe between the end of the first one and
-- its drop.
probing_again : Reaches proxied 1 50 (
    world
      (drop (claimed_at after_probe 300) (record probe { finished = true }))
      (probe ∷ record first_attempt { finished = true } ∷ []))
unfolding claim finish Health.new find_host put_host start candidates eligible key_of min_from any
    settle list_beq
probing_again =
    let s₁ = then_ begin (claimed (codes "a.org") (false ∷ []) 100) in
    let s₂ = then_ s₁ (finished [] first_attempt [] false 110 refl) in
    let s₃ = then_ s₂ (claimed (codes "a.org") (false ∷ []) 200) in
    let s₄ =
      then_ s₃ (finished [] probe (record first_attempt { finished = true } ∷ []) false 210 refl) in
    let s₅ = then_ s₄ (claimed (codes "a.org") (false ∷ []) 300) in
    then_ s₅ (
      dropped (probe ∷ []) (record probe { finished = true })
        (record first_attempt { finished = true } ∷ []))

single_flight_example :
    AreApart (probe ∷ record first_attempt { finished = true } ∷ [])
    × All
        (IsMarked (drop (claimed_at after_probe 300) (record probe { finished = true })))
        (probe ∷ record first_attempt { finished = true } ∷ [])
single_flight_example = single_flight proxied 1 50 probing_again
