-- ===== src/Net/Limits/Accepted.antt =====
-- Which raw limits are accepted.
use inoreader.Prelude.{◌≤◌, ◌≡◌, ◌↔◌, nat_eq, arith, ok}
use inoreader.Net.Limits.{
  OutboundLimits, RawOutboundLimits, BrowserLimits, RawBrowserLimits, try_from, try_from_browser,
  refuse_zeros,
}

pub record IsUsable (raw : RawOutboundLimits) : Type 0 where
  pub connect : 1 ≤ raw.connect_timeout_ms
  pub ordered : raw.connect_timeout_ms ≤ raw.request_deadline_ms
  pub body : 1 ≤ raw.max_response_body_bytes

abbrev pub outbound : RawOutboundLimits → OutboundLimits
outbound raw = record {
  connect_timeout = raw.connect_timeout_ms;
  request_deadline = raw.request_deadline_ms;
  max_redirect_hops = raw.max_redirect_hops;
  max_response_body_bytes = raw.max_response_body_bytes;
}

-- The limits of outbound requests are accepted, as they were given, exactly if the connect timeout
-- is positive and at most the deadline of the request, and the body's limit is positive.
try_from_iff : (raw : RawOutboundLimits) → (try_from raw ≡ ok (outbound raw)) ↔ IsUsable raw
unfolding try_from
try_from_iff raw = (
  λ h. record {
    connect = ground (arith, h);
    ordered = ground (arith, h);
    body = ground (arith, h);
  },
  λ h. ground (arith, h),
)

pub record IsUsableBrowser (raw : RawBrowserLimits) : Type 0 where
  pub contexts : 1 ≤ raw.max_contexts
  pub pages : 1 ≤ raw.max_pages_per_context
  pub actions : 1 ≤ raw.max_actions
  pub navigation : 1 ≤ raw.navigation_deadline_ms
  pub ordered : raw.navigation_deadline_ms ≤ raw.preview_deadline_ms
  pub downloads : raw.max_downloads ≡ 0

abbrev pub browser : RawBrowserLimits → BrowserLimits
browser raw = record {
  max_contexts = raw.max_contexts;
  max_pages_per_context = raw.max_pages_per_context;
  preview_deadline = raw.preview_deadline_ms;
  navigation_deadline = raw.navigation_deadline_ms;
  max_actions = raw.max_actions;
  max_downloads = raw.max_downloads;
}

-- The limits of browser contexts are accepted, as they were given, exactly if contexts, pages and
-- actions are allowed at all, the navigation deadline is positive and at most that of the preview,
-- and downloads are not allowed.
try_from_browser_iff :
    (raw : RawBrowserLimits) → (try_from_browser raw ≡ ok (browser raw)) ↔ IsUsableBrowser raw
unfolding try_from_browser refuse_zeros
try_from_browser_iff raw = (
  λ h. record {
    contexts = ground (arith, h);
    pages = ground (arith, h);
    actions = ground (arith, h);
    navigation = ground (arith, h);
    ordered = ground (arith, h);
    downloads = ground (arith, h);
  },
  λ h. ground (arith, h),
)
