-- ===== src/Tunnel/Consistency.antt =====
-- What the tunnel shows fits what it holds, whatever calls are made.
use codex_app.Tunnel.{
  launch_args, TunnelStatus, TunnelSession, QuickTunnelConfig, TunnelError, Wait, wait_error, runs,
  exited, Environment, QuickTunnelManager, new_manager, asked, at_rest, after_wait, is_up,
  after_health, stop, terminate_now, reconcile_child_status, status, check_health, refresh_up,
  refresh_status,
}
use codex_app.Tunnel.Starting.{
  still_running, await_tunnel, finish_start, after_spawn, launch, start, rotate_from, rotate,
}
use codex_app.Prelude.{
  ℕ, String, Bool, true, false, Option, none, some, List, [], ◌∷◌, ◌≡◌, refl, ◌∙◌, is_some, not,
  ◌||◌, continue, leb, Result, ok, err, arith, if◌then◌else◌,
}

abbrev is_between : TunnelStatus → Bool
is_between TunnelStatus.starting = true
is_between TunnelStatus.stopping = true
is_between _ = false

abbrev is_reconnecting : TunnelStatus → Bool
is_reconnecting TunnelStatus.reconnecting = true
is_reconnecting _ = false

pub data TunnelCall : Type 0 where
  show_status refresh stop_it terminate replace_it : TunnelCall
  start_at : String → TunnelCall

-- Exactly a tunnel that is up has a session and a child, and exactly one that reconnects has failed
-- health checks since the last one that passed. No call leaves a tunnel between two states.
pub record Consistent (m : QuickTunnelManager) : Type 0 where
  pub sessions : is_some m.state.session ≡ is_up m.state.status
  pub children : m.child ≡ is_up m.state.status
  pub failures : leb 1 m.consecutive_health_failures ≡ is_reconnecting m.state.status
  pub settled : is_between m.state.status ≡ false

asked-Consistent : (m : QuickTunnelManager) → Consistent m → Consistent (asked m)
asked-Consistent m c = record {
  sessions = c.sessions;
  children = c.children;
  failures = c.failures;
  settled = c.settled;
}

after_wait-Consistent :
    (w : Wait) (m : QuickTunnelManager) → Consistent m → Consistent (after_wait w m)
after_wait-Consistent (wait_error e) m c = c
after_wait-Consistent runs m c = c
after_wait-Consistent (exited s) m c = record {
  sessions = refl;
  children = refl;
  failures = refl;
  settled = refl;
}

after_health-Consistent :
    (o : Option String) (m : QuickTunnelManager)
    → is_up m.state.status ≡ true
    → Consistent m
    → Consistent (after_health o m)
unfolding after_health
after_health-Consistent none m up c = record {
  sessions = c.sessions ∙ up;
  children = c.children ∙ up;
  failures = refl;
  settled = refl;
}
after_health-Consistent (some e) m up c = record {
  sessions = c.sessions ∙ up;
  children = c.children ∙ up;
  failures = ground arith;
  settled = refl;
}

stop-Consistent : (m : QuickTunnelManager) → Consistent (stop m)
stop-Consistent m = record { sessions = refl; children = refl; failures = refl; settled = refl }

if-Consistent :
    (b : Bool) (x y : QuickTunnelManager)
    → Consistent x
    → (b ≡ false → Consistent y)
    → Consistent (if b then x else y)
if-Consistent true x y cx cy = cx
if-Consistent false x y cx cy = cy refl

not_down : (a b : Bool) → (not a || not b) ≡ false → b ≡ true
not_down true true h = refl
not_down true false h = cc
not_down false b h = cc

module _ (env : Environment) where
  reconcile-Consistent :
      (m : QuickTunnelManager) → Consistent m → Consistent (reconcile_child_status env m)
  unfolding reconcile_child_status
  reconcile-Consistent m c =
      if-Consistent m.child (after_wait (env.try_wait m.questions) (asked m)) m
        (after_wait-Consistent (env.try_wait m.questions) (asked m) (asked-Consistent m c))
        (λ down. c)

  check_health-Consistent :
      (o : Option TunnelSession) (m : QuickTunnelManager)
      → is_up m.state.status ≡ true
      → Consistent m
      → Consistent (check_health env o m)
  unfolding check_health
  check_health-Consistent none m up c = c
  check_health-Consistent (some session) m up c =
      after_health-Consistent (env.healthy m.questions session.public_url) (asked m) up
        (asked-Consistent m c)

  refresh_up-Consistent : (m : QuickTunnelManager) → Consistent m → Consistent (refresh_up env m)
  unfolding refresh_up
  refresh_up-Consistent m c =
      if-Consistent (not m.child || not (is_up m.state.status)) m
        (check_health env m.state.session m) c
        (λ up.
          check_health-Consistent m.state.session m (not_down m.child (is_up m.state.status) up) c)

  refresh_status-Consistent :
      (m : QuickTunnelManager) → Consistent m → Consistent (refresh_status env m)
  unfolding refresh_status
  refresh_status-Consistent m c =
      refresh_up-Consistent (reconcile_child_status env m) (reconcile-Consistent m c)

  module _ (config : QuickTunnelConfig) (display : TunnelError → String) where
    finish_start-Consistent :
        (local_url : String) (r : Result TunnelError String) (m : QuickTunnelManager)
        → Consistent ((finish_start config env display local_url (r, m)).1)
    finish_start-Consistent local_url (ok public_url) m = record {
      sessions = refl;
      children = refl;
      failures = refl;
      settled = refl;
    }
    finish_start-Consistent local_url (err e) m = record {
      sessions = refl;
      children = refl;
      failures = refl;
      settled = refl;
    }

    after_spawn-Consistent :
        (fuel : ℕ) (local_url : String) (o : Option String) (m : QuickTunnelManager)
        → Consistent ((after_spawn config env display fuel local_url o m).1)
    unfolding after_spawn
    after_spawn-Consistent fuel local_url (some e) m = record {
      sessions = refl;
      children = refl;
      failures = refl;
      settled = refl;
    }
    after_spawn-Consistent fuel local_url none m =
        let (r, m') = await_tunnel config env fuel m in finish_start-Consistent local_url r m'

    launch-Consistent :
        (fuel : ℕ) (local_url : String) (running : Bool) (m : QuickTunnelManager)
        → Consistent m
        → Consistent ((launch config env display fuel local_url running m).1)
    unfolding launch
    launch-Consistent fuel local_url true m c = c
    launch-Consistent fuel local_url false m c =
        after_spawn-Consistent fuel local_url
          (env.spawned m.questions (launch_args config local_url))
          (asked (at_rest TunnelStatus.starting none m))

    launch_if-Consistent :
        (fuel : ℕ) (local_url : String) (child : Bool) (w : Wait) (m : QuickTunnelManager)
        → Consistent m
        → Consistent (
            (continue
              (if child then still_running w (asked m) else (ok false, m))
              (launch config env display fuel local_url)).1)
    launch_if-Consistent fuel local_url false w m c = launch-Consistent fuel local_url false m c
    launch_if-Consistent fuel local_url true (wait_error e) m c = asked-Consistent m c
    launch_if-Consistent fuel local_url true runs m c =
        launch-Consistent fuel local_url true (asked m) (asked-Consistent m c)
    launch_if-Consistent fuel local_url true (exited s) m c =
        launch-Consistent fuel local_url false (asked m) (asked-Consistent m c)

    start-Consistent :
        (fuel : ℕ) (local_url : String) (m : QuickTunnelManager)
        → Consistent m
        → Consistent ((start config env display fuel local_url m).1)
    unfolding start
    start-Consistent fuel local_url m c =
        launch_if-Consistent fuel local_url m.child (env.try_wait m.questions) m c

    rotate_from-Consistent :
        (fuel : ℕ) (o : Option TunnelSession) (m : QuickTunnelManager)
        → Consistent m
        → Consistent ((rotate_from config env display fuel o m).1)
    unfolding rotate_from
    rotate_from-Consistent fuel none m c = c
    rotate_from-Consistent fuel (some session) m c =
        start-Consistent fuel session.local_url (stop m) (stop-Consistent m)

    rotate-Consistent :
        (fuel : ℕ) (m : QuickTunnelManager)
        → Consistent m
        → Consistent ((rotate config env display fuel m).1)
    unfolding rotate
    rotate-Consistent fuel m c = rotate_from-Consistent fuel m.state.session m c

    -- The calls that the desktop makes of its tunnel, with the fuel of a start.
    abbrev pub tunnel_call : ℕ → TunnelCall → QuickTunnelManager → QuickTunnelManager
    unfolding reconcile_child_status refresh_status start rotate
    tunnel_call fuel show_status m = status env m
    tunnel_call fuel refresh m = refresh_status env m
    tunnel_call fuel (start_at local_url) m = (start config env display fuel local_url m).1
    tunnel_call fuel stop_it m = stop m
    tunnel_call fuel terminate m = terminate_now m
    tunnel_call fuel replace_it m = (rotate config env display fuel m).1

    abbrev pub tunnel_calls : ℕ → List TunnelCall → QuickTunnelManager → QuickTunnelManager
    unfolding tunnel_call
    tunnel_calls fuel [] m = m
    tunnel_calls fuel (c ∷ calls) m = tunnel_calls fuel calls (tunnel_call fuel c m)

    tunnel_call-Consistent :
        (fuel : ℕ) (call : TunnelCall) (m : QuickTunnelManager)
        → Consistent m
        → Consistent (tunnel_call fuel call m)
    unfolding tunnel_call
    tunnel_call-Consistent fuel show_status m c = reconcile-Consistent m c
    tunnel_call-Consistent fuel refresh m c = refresh_status-Consistent m c
    tunnel_call-Consistent fuel (start_at local_url) m c = start-Consistent fuel local_url m c
    tunnel_call-Consistent fuel stop_it m c = stop-Consistent m
    tunnel_call-Consistent fuel terminate m c = stop-Consistent m
    tunnel_call-Consistent fuel replace_it m c = rotate-Consistent fuel m c

    calls-Consistent :
        (fuel : ℕ) (calls : List TunnelCall) (m : QuickTunnelManager)
        → Consistent m
        → Consistent (tunnel_calls fuel calls m)
    unfolding tunnel_calls
    calls-Consistent fuel [] m c = c
    calls-Consistent fuel (call ∷ calls) m c =
        calls-Consistent fuel calls (tunnel_call fuel call m) (tunnel_call-Consistent fuel call m c)

    -- Whatever the operating system, the child, the health probe and the clock answer, and whichever
    -- calls were made of a new manager: it has a session, and holds a child, exactly when its status is
    -- ready or reconnecting; it counts failed health checks exactly when it is reconnecting; and it is
    -- neither starting nor stopping between two calls. So a start that failed, a stop and a child that
    -- was seen to have exited leave no public URL behind.
    pub tunnel_calls-Consistent :
        (fuel : ℕ) (calls : List TunnelCall) → Consistent (tunnel_calls fuel calls new_manager)
    tunnel_calls-Consistent fuel calls =
        calls-Consistent fuel calls new_manager
          record { sessions = refl; children = refl; failures = refl; settled = refl }
