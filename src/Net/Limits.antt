-- ===== src/Net/Limits.antt =====
-- crates/reader-web-runtime/src/config.rs: the validated limits of outbound requests and of browser
-- contexts, in milliseconds and bytes.
pub mod Accepted
use inoreader.Prelude.{
  ℕ, List, [], ◌∷◌, ◌==◌, ◌!=◌, nat_eq, ltb, Result, ok, ◌>>=◌, ◌>>◌, refuse_if,
}
use inoreader.Prelude.Text.{Text, codes}

pub record OutboundLimits : Type 0 where
  pub connect_timeout : ℕ
  pub request_deadline : ℕ
  pub max_redirect_hops : ℕ
  pub max_response_body_bytes : ℕ

pub record RawOutboundLimits : Type 0 where
  pub connect_timeout_ms : ℕ
  pub request_deadline_ms : ℕ
  pub max_redirect_hops : ℕ
  pub max_response_body_bytes : ℕ

pub data LimitsError : Type 0 where
  zero_field : Text → LimitsError
  connect_exceeds_deadline : LimitsError
  must_be_zero : Text → LimitsError
  navigation_exceeds_preview : LimitsError

unfoldable pub try_from : RawOutboundLimits → Result LimitsError OutboundLimits
try_from raw = do
  refuse_if (raw.connect_timeout_ms == 0) (zero_field (codes "http.connect_timeout_ms"))
  refuse_if (raw.request_deadline_ms == 0) (zero_field (codes "http.request_deadline_ms"))
  refuse_if (raw.max_response_body_bytes == 0) (zero_field (codes "http.max_response_body_bytes"))
  refuse_if (ltb raw.request_deadline_ms raw.connect_timeout_ms) connect_exceeds_deadline
  ok (record {
    connect_timeout = raw.connect_timeout_ms;
    request_deadline = raw.request_deadline_ms;
    max_redirect_hops = raw.max_redirect_hops;
    max_response_body_bytes = raw.max_response_body_bytes;
  })

pub record BrowserLimits : Type 0 where
  pub max_contexts : ℕ
  pub max_pages_per_context : ℕ
  pub preview_deadline : ℕ
  pub navigation_deadline : ℕ
  pub max_actions : ℕ
  pub max_downloads : ℕ

pub record RawBrowserLimits : Type 0 where
  pub max_contexts : ℕ
  pub max_pages_per_context : ℕ
  pub preview_deadline_ms : ℕ
  pub navigation_deadline_ms : ℕ
  pub max_actions : ℕ
  pub max_downloads : ℕ

-- The loop over the named fields of `try_from`.
unfoldable pub refuse_zeros : List (Text × ℕ) → Result LimitsError (Unit {0})
refuse_zeros [] = ok tt
refuse_zeros ((field, value) ∷ rest) =
    let others = refuse_zeros rest in refuse_if (value == 0) (zero_field field) >>= λ _. others

-- `TryFrom<RawBrowserLimits> for BrowserLimits`
unfoldable pub try_from_browser : RawBrowserLimits → Result LimitsError BrowserLimits
unfolding refuse_zeros
try_from_browser raw = do
  refuse_zeros (
      (codes "browser.max_contexts", raw.max_contexts)
      ∷ (codes "browser.max_pages_per_context", raw.max_pages_per_context)
      ∷ (codes "browser.max_actions", raw.max_actions)
      ∷ [])
  refuse_if (raw.preview_deadline_ms == 0) (zero_field (codes "browser.preview_deadline_ms"))
  refuse_if (raw.navigation_deadline_ms == 0) (zero_field (codes "browser.navigation_deadline_ms"))
  refuse_if (ltb raw.preview_deadline_ms raw.navigation_deadline_ms) navigation_exceeds_preview
  refuse_if (raw.max_downloads != 0) (must_be_zero (codes "browser.max_downloads"))
  ok (record {
    max_contexts = raw.max_contexts;
    max_pages_per_context = raw.max_pages_per_context;
    preview_deadline = raw.preview_deadline_ms;
    navigation_deadline = raw.navigation_deadline_ms;
    max_actions = raw.max_actions;
    max_downloads = 0;
  })
