-- ===== src/Tunnel.antt =====
-- crates/desktop-core/src/tunnel.rs: the quick tunnel, a child process that prints its public URL.
-- What the environment answers is a parameter, by the number of questions before: the operating
-- system's `spawn` and `try_wait`, the child's output, the health probe, the clock (in its ticks, as
-- all durations are), and the generator of UUIDs. A child is what it is asked; its handle has no
-- content.
pub mod Urls
pub mod Starting
pub mod Consistency
pub mod Waits
pub mod Deadlines
use Prim.Native.String.{◌++◌}
use codex_app.Prelude.{
  ℕ, zero, suc, String, ◌+◌, ◌-◌, ◌^◌, min, Bool, true, false, not, ◌&&◌, ◌||◌, Option, none, some,
  List, [], ◌∷◌, ◌++◌ as append, ◌==◌, map, any_by, ltb, leb, nat_eq, map_option, includes, is_some,
  replace, saturating_add, to_string, Result, ok, err, if◌then◌else◌,
}

pub data TunnelStatus : Type 0 where
  stopped starting ready reconnecting failed stopping : TunnelStatus

pub record TunnelSession : Type 0 where
  pub id : String
  pub local_url : String
  pub public_url : String
  pub started_at : ℕ

-- The tunnel's state, and what `snapshot` shows of it.
pub record TunnelState : Type 0 where
  pub status : TunnelStatus
  pub session : Option TunnelSession
  pub detail : Option String

pub record QuickTunnelConfig : Type 0 where
  pub args_template : List String
  pub startup_timeout : ℕ
  pub poll_interval : ℕ

-- `out_of_fuel`: the model's own.
pub data TunnelError : Type 0 where
  already_running not_running : TunnelError
  spawn output child_exited : String → TunnelError
  public_url_timeout : ℕ → TunnelError
  public_health_timeout : ℕ → String → TunnelError
  out_of_fuel : TunnelError

-- What `try_wait` answers: an error, nothing while the child runs, or its exit status.
pub data Wait : Type 0 where
  wait_error : String → Wait
  runs : Wait
  exited : String → Wait

-- What a timed `recv` of the output answers; `closed` when both readers have ended.
pub data Received : Type 0 where
  line : String → Received
  broken : String → Received
  closed : Received
  silent : Received

-- The answers to the n-th question. `clock` is the monotonic clock of the deadlines, less the time that
-- was asked for in sleeps and used up in waits; `spawned` is told the child's arguments. `spawned` and `healthy` answer an error, if there is one.
pub record Environment : Type 0 where
  pub spawned : ℕ → List String → Option String
  pub try_wait : ℕ → Wait
  pub recv : ℕ → Received
  pub healthy : ℕ → String → Option String
  pub clock : ℕ → ℕ
  pub wall_clock : ℕ → ℕ
  pub new_v4 : ℕ → String

-- `child`: whether the manager holds a child; `questions`: how many the environment has answered;
-- `slept`: the time asked for in sleeps and used up in waits.
pub record QuickTunnelManager : Type 0 where
  pub state : TunnelState
  pub child : Bool
  pub consecutive_health_failures : ℕ
  pub questions : ℕ
  pub slept : ℕ

abbrev pub new_manager : QuickTunnelManager
new_manager = record {
  state = record { status = TunnelStatus.stopped; session = none; detail = none };
  child = false;
  consecutive_health_failures = 0;
  questions = 0;
  slept = 0;
}

abbrev pub asked : QuickTunnelManager → QuickTunnelManager
asked m = record m { questions = m.questions + 1 }

-- A sleep, or a timed wait that has run out.
abbrev pub paused : ℕ → QuickTunnelManager → QuickTunnelManager
paused duration m = record m { slept = m.slept + duration }

-- The state after the end of a child, or a start that failed.
abbrev pub at_rest : TunnelStatus → Option String → QuickTunnelManager → QuickTunnelManager
at_rest status detail m = record m {
  state = record { status = status; session = none; detail = detail };
  child = false;
  consecutive_health_failures = 0;
}

abbrev pub after_wait : Wait → QuickTunnelManager → QuickTunnelManager
after_wait (exited status) m =
    at_rest TunnelStatus.failed (some ("tunnel provider exited: " ++ status)) m
after_wait runs m = m
after_wait (wait_error e) m = m

abbrev pub is_up : TunnelStatus → Bool
is_up TunnelStatus.ready = true
is_up TunnelStatus.reconnecting = true
is_up _ = false

abbrev pub health_failures_before_rotate : ℕ
health_failures_before_rotate = 3

abbrev health_detail : ℕ → String → String
unfolding to_string
health_detail failures error =
    "public tunnel health check failed ("
    ++ to_string failures
    ++ "/"
    ++ to_string health_failures_before_rotate
    ++ "): "
    ++ error
    ++ ". "
    ++ (if leb health_failures_before_rotate failures
        then "Use 换链接 if the connection does not recover."
        else "Retrying automatically.")

-- What the health probe answered.
unfoldable pub after_health : Option String → QuickTunnelManager → QuickTunnelManager
unfolding health_detail
after_health none m = record m {
  state = record { status = TunnelStatus.ready; session = m.state.session; detail = none };
  consecutive_health_failures = 0;
}
after_health (some error) m =
    let failures = saturating_add (2 ^ 32 - 1) m.consecutive_health_failures 1 in
    record m {
      state = record {
        status = TunnelStatus.reconnecting;
        session = m.state.session;
        detail = some (health_detail failures error);
      };
      consecutive_health_failures = failures;
    }

abbrev pub stop : QuickTunnelManager → QuickTunnelManager
stop m = at_rest TunnelStatus.stopped none m

abbrev pub terminate_now : QuickTunnelManager → QuickTunnelManager
terminate_now m = at_rest TunnelStatus.stopped none m

abbrev pub local_url_placeholder : String
local_url_placeholder = "{local_url}"

abbrev with_url : String → String → String
unfolding replace
with_url local_url arg =
    if arg == local_url_placeholder then local_url else replace arg local_url_placeholder local_url

unfoldable pub launch_args : QuickTunnelConfig → String → List String
unfolding with_url
launch_args config local_url =
    let args = map (with_url local_url) config.args_template in
    if not (any_by (λ arg. arg == local_url_placeholder) config.args_template)
      && not (any_by (λ arg. includes arg local_url_placeholder) config.args_template)
    then append args (local_url ∷ [])
    else args

module _ (env : Environment) where
  unfoldable pub reconcile_child_status : QuickTunnelManager → QuickTunnelManager
  reconcile_child_status m = if m.child then after_wait (env.try_wait m.questions) (asked m) else m

  -- `status`: the snapshot that it answers is the state.
  abbrev pub status : QuickTunnelManager → QuickTunnelManager
  unfolding reconcile_child_status
  status m = reconcile_child_status m

  -- The probe is asked for the session's public URL.
  unfoldable pub check_health : Option TunnelSession → QuickTunnelManager → QuickTunnelManager
  unfolding after_health
  check_health none m = m
  check_health (some session) m =
      after_health (env.healthy m.questions session.public_url) (asked m)

  unfoldable pub refresh_up : QuickTunnelManager → QuickTunnelManager
  unfolding check_health
  refresh_up m =
      if not m.child || not (is_up m.state.status) then m else check_health m.state.session m

  unfoldable pub refresh_status : QuickTunnelManager → QuickTunnelManager
  unfolding reconcile_child_status refresh_up
  refresh_status m = refresh_up (reconcile_child_status m)
