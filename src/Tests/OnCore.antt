-- ===== src/Tests/OnCore.antt =====
-- The theorems on reader-core, applied to concrete values.
use inoreader.Prelude.{
  ℕ, ◌<◌, ◌≡◌, refl, ◌↔◌, true, false, none, some, List, [], ◌∷◌, arith, nat_eq, list_eq, list_beq,
  option_beq, length, ok, contains, IsDistinct, u64_mod, ◌%◌, ◌+◌,
}
use inoreader.Prelude.Text.{Text, codes, trim, is_whitespace, is_empty, trim_start, byte_len}
use inoreader.Core.Reason.{Reason, ReasonPolicy, IsAllowed, is_blank}
use inoreader.Core.Workspace
use inoreader.Core.Workspace.{WorkspaceStateEvent, Workspace}
use inoreader.Core.Workspace.History.{validate-run, archive, restore, run}
use inoreader.Core.Subscription
use inoreader.Core.Subscription.{StateEvent, Subscription, source_url_exact}
use inoreader.Core.Subscription.History.{validate-run_calls, run_calls, pause, rename, resume}
use inoreader.Core.Jobs.{DurableJob, JobLease, ready, poll_source}
use inoreader.Core.Jobs.Lifecycle
use inoreader.Core.Jobs.Lifecycle.{run-IsLifecycle, run-revision, IsLifecycle, lease, complete}
use inoreader.Core.Article.{Article, ArticleState, DedupKey, source_record, merge}
use inoreader.Core.Article.Origins.{merge-IsMerge, merge-total, IsMerge}
use inoreader.Core.Rules
use inoreader.Core.Rules.{Rule, RuleField, mark_read, matches, apply}
use inoreader.Core.Rules.Effect.{matches_iff, OccursIn}
use inoreader.Tests.{toy_urls, feed}

abbrev policy : ReasonPolicy
policy = record { max_bytes = 20 }

abbrev moved : Reason
moved = record { raw = codes "moved away" }

moved-IsAllowed : IsAllowed policy moved
unfolding is_blank byte_len
moved-IsAllowed = record { not_blank = refl; fits = omega arith }

abbrev archival : WorkspaceStateEvent
archival = record { reason = moved; actor = 3; at = 100 }

abbrev desk : Workspace
desk = Workspace.new 1 2 (codes "desk")

validate-run_example :
    Workspace.validate (run desk (archive archival ∷ restore ∷ archive archival ∷ [])) policy
    ≡ ok tt
validate-run_example =
    validate-run policy 1 2 (codes "desk") (archive archival ∷ restore ∷ archive archival ∷ [])
      (moved-IsAllowed, (tt, (moved-IsAllowed, tt)))

revision_lt : desk.revision < u64_mod
unfolding Workspace.new
revision_lt = omega arith

abbrev pausing : StateEvent
pausing = record { reason = moved; actor = 3; at = 100 }

abbrev followed : Subscription Text
followed = record (Subscription.new toy_urls 1 2 feed (codes "A") 50) { exact_url = some feed }

made : Subscription.new_with_exact_url toy_urls 1 2 feed feed (codes "A") 50 ≡ ok followed
unfolding Subscription.new_with_exact_url Subscription.parses_to list_beq option_beq
made = refl

validate-run_calls_example :
    Subscription.validate toy_urls
      (run_calls toy_urls followed (pause pausing ∷ rename (codes "B") ∷ resume ∷ []))
      policy
    ≡ ok tt
validate-run_calls_example =
    validate-run_calls toy_urls policy 1 2 feed feed (codes "A") 50
      (pause pausing ∷ rename (codes "B") ∷ resume ∷ []) made (moved-IsAllowed, (tt, (tt, tt)))

abbrev job : DurableJob
job = record {
  id = 1;
  kind = poll_source;
  idempotency_key = codes "k";
  payload = [];
  status = ready;
  attempts = 0;
  revision = 7;
}

abbrev lease_of : Text → JobLease
lease_of owner = record { owner = owner; acquired_at = 10; expires_at = 20 }

abbrev race : List Lifecycle.Call
race =
    lease (lease_of (codes "w1"))
    ∷ lease (lease_of (codes "w2"))
    ∷ complete (codes "w2")
    ∷ complete (codes "w1")
    ∷ []

run-IsLifecycle_example : IsLifecycle (Lifecycle.run job race).0.status (Lifecycle.run job race).1
run-IsLifecycle_example = run-IsLifecycle job race refl

run-revision_example : (Lifecycle.run job race).0 ≡ record job {
  status = (Lifecycle.run job race).0.status;
  revision = (7 + length (Lifecycle.run job race).1) % u64_mod;
}
run-revision_example = run-revision job race (omega arith)

abbrev entry : DedupKey Text
entry = record {
  location = source_record 4 (codes "post-1");
  title = codes "A post";
  description = none;
}

abbrev read_state : ArticleState
read_state = record { read = true; later = false; protect_unread = false }

abbrev kept_state : ArticleState
kept_state = record { read = false; later = true; protect_unread = true }

abbrev article : ℕ → ArticleState → List ℕ → Article Text
article id state origins = record {
  id = id;
  key = entry;
  state = state;
  first_arrived_at = 100 + id;
  origins = origins;
  revision = 0;
}

abbrev shared : Article Text
shared = article 1 read_state (7 ∷ 8 ∷ [])

distinct : IsDistinct shared.origins
unfolding contains
distinct = (refl, (refl, tt))

abbrev parts : List (Article Text)
parts = shared ∷ article 2 kept_state (8 ∷ 9 ∷ []) ∷ []

merged : (m : Article Text) × (merge 5 parts ≡ some m)
merged = merge-total 5 shared (article 2 kept_state (8 ∷ 9 ∷ []) ∷ []) (refl, tt)

merge-IsMerge_example : IsMerge 5 parts merged.0
merge-IsMerge_example = merge-IsMerge 5 parts merged.1

abbrev rule : Rule
rule = record {
  id = 1;
  subscription_id = 2;
  version = 1;
  enabled = true;
  field = RuleField.title;
  needles = codes "ad" ∷ [];
  action = mark_read;
}

valid : Rules.validate rule ≡ ok tt
unfolding Rules.validate Rules.check_needles trim trim_start list_beq is_empty is_whitespace
valid = refl

-- With texts that are in lowercase already.
matches_iff_example :
    (n : Text) × (rule.needles ≡ n ∷ [])
    × ((matches (λ t. t) rule (codes "bad ad") none ≡ true)
        ↔ ((true ≡ true) × OccursIn RuleField.title n (codes "bad ad") []))
matches_iff_example = matches_iff (λ t. t) rule (codes "bad ad") none valid
