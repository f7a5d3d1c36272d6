-- ===== src/Lease.antt =====
-- apps/desktop/src/agent/control-lease.ts. A token that `randomUUID` makes and the time of a call
-- are arguments; the parsing of a URL is the host's and is an argument too.
pub mod Exclusion
pub mod History
mod Tests
use smart_form.Base.{
  ℕ, suc, String, Bool, true, false, not, ◌&&◌, ◌||◌, Option, none, some, List, [], ◌∷◌, ◌==◌,
  if◌then◌else◌, any, truthy, opt_eq, text_concat,
}
use smart_form.Base.Exec.{
  Result, ok, err, Exec, pure, throw, gets, put_state, ◌>>=◌, ◌>>◌, require, Part, zoom,
}
use smart_form.Contracts.Artifact.{Failure, error}

pub data AutomationExecutor : Type 0 where
  playwright_runner browser_use_sidecar : AutomationExecutor

pub data ControlHolder : Type 0 where
  automation : AutomationExecutor → ControlHolder
  human : ControlHolder

pub ControlHolder-discrete : Discrete ControlHolder
ControlHolder-discrete = hlevel

abbrev pub same_executor : AutomationExecutor → AutomationExecutor → Bool
same_executor playwright_runner playwright_runner = true
same_executor browser_use_sidecar browser_use_sidecar = true
same_executor _ _ = false

abbrev pub same_holder : ControlHolder → ControlHolder → Bool
same_holder human human = true
same_holder (automation a) (automation b) = same_executor a b
same_holder _ _ = false

abbrev pub is_human : ControlHolder → Bool
is_human human = true
is_human (automation a) = false

abbrev pub holder_name : ControlHolder → String
holder_name human = "human"
holder_name (automation playwright_runner) = "playwright-runner"
holder_name (automation browser_use_sidecar) = "browser-use-sidecar"

pub record ControlLease : Type 0 where
  pub task_id : String
  pub holder : ControlHolder
  pub token : String
  pub epoch : ℕ
  pub acquired_at : ℕ

pub record BrowserProbe : Type 0 where
  pub url : String
  pub title : Option String
  pub fingerprint : Option String
  pub active_target_id : Option String

pub record Authority : Type 0 where
  pub lease : Option ControlLease
  pub epoch : ℕ

pub fresh : Authority
fresh = record { lease = none; epoch = 0 }

-- `createLease`, whose result every caller stores in `lease` and returns a copy of.
unfoldable pub create_lease :
    String → ControlHolder → String → ℕ → Exec Failure Authority ControlLease
create_lease task_id holder uuid now a =
    let l : ControlLease = record {
      task_id = task_id;
      holder = holder;
      token = uuid;
      epoch = suc a.epoch;
      acquired_at = now;
    } in
    (ok l, record { lease = some l; epoch = suc a.epoch })

abbrev vacant : Option ControlLease → Exec Failure Authority Unit
vacant none = pure tt
vacant (some l) = throw (error (text_concat "Browser control is held by " (holder_name l.holder)))

unfoldable pub acquire :
    String → AutomationExecutor → String → ℕ → Exec Failure Authority ControlLease
unfolding create_lease
acquire task_id executor uuid now = do
  lease ← gets (λ a. a.lease)
  vacant lease
  create_lease task_id (automation executor) uuid now

abbrev pub is_held_by : String → ControlHolder → Option ControlLease → Bool
is_held_by token holder none = false
is_held_by token holder (some l) = l.token == token && same_holder l.holder holder

unfoldable pub assert : String → ControlHolder → Exec Failure Authority Unit
assert token holder = do
  lease ← gets (λ a. a.lease)
  require (is_held_by token holder lease)
      (error "Browser control lease is missing, stale, or owned by another executor")

-- The task of the lease that an automation executor holds under this token.
abbrev automated_task : String → Option ControlLease → Exec Failure Authority String
automated_task token none = throw (error "Only the active automation executor can transfer control")
automated_task token (some l) = do
  require (l.token == token && not (is_human l.holder))
      (error "Only the active automation executor can transfer control")
  pure l.task_id

-- What `transferToHuman` does before it waits for the action in flight.
unfoldable pub begin_transfer : String → Exec Failure Authority String
begin_transfer token = do lease ← gets (λ a. a.lease); automated_task token lease

-- Other calls may be served while the action drains: `S` is the state of all that they can change.
-- `draw` makes the token and reads the clock.
unfoldable pub transfer_to_human :
    {S : Type 0}
    → Part S Authority
    → String
    → Exec Failure S Unit
    → Exec Failure S (String × ℕ)
    → Exec Failure S ControlLease
unfolding begin_transfer create_lease
transfer_to_human part token drain draw = do
  task_id ← zoom part (begin_transfer token)
  drain
  stamp ← draw
  zoom part (create_lease task_id human stamp.0 stamp.1)

abbrev held_task : Option ControlLease → String
held_task none = ""
held_task (some l) = l.task_id

-- The host's `new URL(text).hostname`, `none` where it throws, and `toLowerCase`.
pub record Urls : Type 0 where
  pub hostname : String → Option String
  pub lower : String → String

abbrev pub lower_host : {S : Type 0} → Urls → Option String → Exec Failure S String
lower_host urls none = throw (error "Invalid URL")
lower_host urls (some h) = pure (urls.lower h)

abbrev pub hostname_of : {S : Type 0} → Urls → String → Exec Failure S String
hostname_of urls url = lower_host urls (urls.hostname url)

abbrev pub target_changed : BrowserProbe → BrowserProbe → Bool
target_changed expected actual =
    truthy expected.active_target_id
    && truthy actual.active_target_id
    && not (opt_eq expected.active_target_id actual.active_target_id)

unfoldable pub resume_after_human :
    Urls
    → String
    → AutomationExecutor
    → BrowserProbe
    → BrowserProbe
    → List String
    → String
    → ℕ
    → Exec Failure Authority ControlLease
unfolding assert create_lease
resume_after_human urls token executor expected actual allowed uuid now = do
  assert token human
  hostname ← hostname_of urls actual.url
  require (any (λ domain. hostname == urls.lower domain) allowed)
      (error (text_concat "Cannot resume outside allowed domains: " hostname))
  require (not (target_changed expected actual))
      (error "Active browser target changed during human control")
  lease ← gets (λ a. a.lease)
  create_lease (held_task lease) (automation executor) uuid now

abbrev has_token : String → Option ControlLease → Bool
has_token token none = false
has_token token (some l) = l.token == token

unfoldable pub release : String → Exec Failure Authority Unit
release token = do
  lease ← gets (λ a. a.lease)
  require (has_token token lease) (error "Cannot release a stale browser control lease")
  put_state (λ a. record a { lease = none })
