-- ===== src/Net/Policy/Peer.antt =====
-- What a verified peer is known to be.
use inoreader.Prelude.{
  ◌≡◌, true, false, not, List, arith, ◌!=◌, nat_eq, list_eq, option_eq, eq_of_==, contains, Result,
  ok, refuse_if, refuse_if-ok, for_each, All-for_each, All, All-map, >>=-eq-ok, ◌>>=◌,
}
use inoreader.Prelude.Url.{UrlApi}
use inoreader.Net.Error.{dns_no_addresses, connected_address_changed, IpAddr, OutboundError}
use inoreader.Net.Address.{validate_public_address, forbidden, ip_eq}
use inoreader.Net.Policy.{
  OutboundPolicy, origin_eq, validate_url, ResolvedTarget, ConnectionAuthorization,
  authorize_resolution, connection, verify_connected_peer, no_address,
}
use inoreader.Net.Policy.Permitted.{IsPermitted, validate_url-IsPermitted}

module _ (api : UrlApi) where
  open api use {Url}

  public : (a : IpAddr) → validate_public_address a ≡ ok tt → forbidden a ≡ false
  unfolding validate_public_address
  public a h = ground arith

  resolved_public :
      (p : OutboundPolicy) (url : Url) (addresses : List IpAddr) {target : ResolvedTarget Url}
      → authorize_resolution api p url addresses ≡ ok target
      → IsPermitted api p url
        × (target ≡ record { url = url; addresses = addresses })
        × All (λ a. forbidden a ≡ false) addresses
  unfolding authorize_resolution
  resolved_public p url addresses h =
      let (u, accepted, h₁) = >>=-eq-ok (validate_url api p url) (λ _. rest) h in
      let (some_address, h₂) =
        refuse_if-ok (no_address addresses) dns_no_addresses (λ _. checked) h₁ in
      let (v, all_public, built) =
        >>=-eq-ok (for_each validate_public_address addresses) (λ _. ok target) h₂ in
      (
        validate_url-IsPermitted api p url accepted,
        cc,
        All-map public addresses (All-for_each validate_public_address addresses all_public),
      )
    where
      target : ResolvedTarget Url
      target = record { url = url; addresses = addresses }

      checked : Result OutboundError (ResolvedTarget Url)
      checked = for_each validate_public_address addresses >>= λ _. ok target

      rest : Result OutboundError (ResolvedTarget Url)
      rest = refuse_if (no_address addresses) dns_no_addresses >>= λ _. checked

  granted_address :
      (target : ResolvedTarget Url) (address : IpAddr) {grant : ConnectionAuthorization Url}
      → connection target address ≡ ok grant
      → (grant ≡ record { url = target.url; address = address })
        × (contains target.addresses address ≡ true)
  unfolding connection
  granted_address target address h =
      let (u, ok_, h₁) = >>=-eq-ok (validate_public_address address) (λ _. checked) h in
      let (listed, built) =
        refuse_if-ok (not (contains target.addresses address)) (connected_address_changed address)
          (λ _. ok grant) h₁ in
      (cc, ground arith)
    where
      grant : ConnectionAuthorization Url
      grant = record { url = target.url; address = address }

      checked : Result OutboundError (ConnectionAuthorization Url)
      checked =
          refuse_if (not (contains target.addresses address)) (connected_address_changed address)
          >>= λ _. ok grant

  verified_address :
      (grant : ConnectionAuthorization Url) (peer : IpAddr)
      → verify_connected_peer grant peer ≡ ok tt
      → peer ≡ grant.address
  unfolding verify_connected_peer
  verified_address grant peer h =
      let (u, ok_, h₁) =
        >>=-eq-ok (validate_public_address peer)
          (λ _. refuse_if (peer != grant.address) (connected_address_changed peer)) h in
      eq_of_== peer grant.address (ground (arith, h₁))

  -- A peer that passes every step is the address that was connected to, one of those resolved, of
  -- a URL that the policy permits; and it, like every other resolved address, is public.
  pub verified_peer :
      (p : OutboundPolicy) (url : Url) (addresses : List IpAddr) (address peer : IpAddr)
      {target : ResolvedTarget Url} {grant : ConnectionAuthorization Url}
      → authorize_resolution api p url addresses ≡ ok target
      → connection target address ≡ ok grant
      → verify_connected_peer grant peer ≡ ok tt
      → IsPermitted api p url
        × (grant.url ≡ url)
        × (peer ≡ address)
        × (contains addresses peer ≡ true)
        × All (λ a. forbidden a ≡ false) addresses
  verified_peer p url addresses address peer {target} {grant} resolved granted verified =
      let (permitted, is_target, all_public) = resolved_public p url addresses resolved in
      let (is_grant, listed) = granted_address target address granted in
      let same = verified_address grant peer verified in (permitted, cc, cc, cc, all_public)
