-- ===== src/Tunnel/Starting.antt =====
-- The start of a quick tunnel, and its replacement by another.
use codex_app.Tunnel.{
  TunnelStatus, TunnelSession, QuickTunnelConfig, TunnelError, Wait, wait_error, runs, exited,
  Received, line, broken, closed, silent, Environment, QuickTunnelManager, launch_args, asked,
  paused, at_rest, stop,
}
use codex_app.Tunnel.Urls.{parse_quick_tunnel_url}
use codex_app.Prelude.{
  ℕ, zero, suc, String, ◌+◌, ◌-◌, min, nat_eq, Bool, true, false, Option, none, some, leb, Result,
  ok, err, Exec, pure, raise, ◌>>=◌, ◌>>◌, if◌then◌else◌,
}

abbrev pub Step : Type 0 → Type 0
Step A = Exec TunnelError QuickTunnelManager A

abbrev pub question : {A : Type 0} → (ℕ → A) → Step A
question f m = (ok (f m.questions), asked m)

abbrev pub alive : Wait → Step (Unit {0})
alive (wait_error e) = raise (TunnelError.spawn e)
alive runs = pure tt
alive (exited s) = raise (TunnelError.child_exited s)

abbrev pub still_running : Wait → Step Bool
still_running (wait_error e) = raise (TunnelError.spawn e)
still_running runs = pure true
still_running (exited s) = pure false

abbrev pub url_or : Option String → Step String → Step String
url_or none rest = rest
url_or (some url) rest = pure url

abbrev pub pause : ℕ → Step (Unit {0})
pause duration m = (ok tt, paused duration m)

-- `Instant::now`
abbrev pub read_clock : Environment → Step ℕ
read_clock env m = (ok (env.clock m.questions + m.slept), asked m)

-- What a line of output, or its absence, leads to; `rest` is the next round. The wait of `wait_for`
-- has run out where nothing came.
unfoldable pub on_received : QuickTunnelConfig → ℕ → Received → Step String → Step String
unfolding parse_quick_tunnel_url
on_received config wait_for (line text) rest = url_or (parse_quick_tunnel_url text) rest
on_received config wait_for (broken e) rest = raise (TunnelError.output e)
on_received config wait_for closed rest = do pause config.poll_interval; rest
on_received config wait_for silent rest = do pause wait_for; rest

module _ (config : QuickTunnelConfig) (env : Environment) where
  -- The loop of `wait_for_public_url`, on fuel.
  unfoldable pub wait_for_public_url : ℕ → ℕ → Step String
  unfolding on_received
  wait_for_public_url zero deadline = raise TunnelError.out_of_fuel
  wait_for_public_url (suc fuel) deadline = do
    wait ← question env.try_wait
    alive wait
    now ← read_clock env
    (if nat_eq (deadline - now) 0
        then raise (TunnelError.public_url_timeout config.startup_timeout)
        else do
          received ← question env.recv
          on_received config (min (deadline - now) config.poll_interval) received
              (wait_for_public_url fuel deadline))

  abbrev pub on_health : ℕ → Option String → Step (Unit {0}) → Step (Unit {0})
  on_health deadline none rest = pure tt
  on_health deadline (some error) rest = do
    now ← read_clock env
    (if leb deadline now
        then raise (TunnelError.public_health_timeout config.startup_timeout error)
        else do pause config.poll_interval; rest)

  -- The loop of `wait_for_public_health`, on fuel.
  unfoldable pub wait_for_public_health : ℕ → ℕ → String → Step (Unit {0})
  wait_for_public_health zero deadline public_url = raise TunnelError.out_of_fuel
  wait_for_public_health (suc fuel) deadline public_url = do
    wait ← question env.try_wait
    alive wait
    answer ← question (λ n. env.healthy n public_url)
    on_health deadline answer (wait_for_public_health fuel deadline public_url)

  -- From the spawned child to its healthy public URL.
  unfoldable pub await_tunnel : ℕ → Step String
  unfolding wait_for_public_url wait_for_public_health
  await_tunnel fuel = do
    at ← read_clock env
    public_url ← wait_for_public_url fuel (at + config.startup_timeout)
    at' ← read_clock env
    wait_for_public_health fuel (at' + config.startup_timeout) public_url
    pure public_url

  abbrev pub running_child : Step Bool
  running_child m =
      if m.child then still_running (env.try_wait m.questions) (asked m) else (ok false, m)

  -- `display`: the text of an error.
  module _ (display : TunnelError → String) where
    -- A start that failed kills its child.
    abbrev pub fail_start : TunnelError → Step (Unit {0})
    fail_start e m = (err e, at_rest TunnelStatus.failed (some (display e)) m)

    abbrev pub finish_start :
        String
        → Result TunnelError String × QuickTunnelManager
        → Result TunnelError (Unit {0}) × QuickTunnelManager
    finish_start local_url (err e, m) = fail_start e m
    finish_start local_url (ok public_url, m) = (
      ok tt,
      record m {
        state = record {
          status = TunnelStatus.ready;
          session = some record {
            id = env.new_v4 m.questions;
            local_url = local_url;
            public_url = public_url;
            started_at = env.wall_clock (m.questions + 1);
          };
          detail = none;
        };
        child = true;
        consecutive_health_failures = 0;
        questions = m.questions + 2;
      },
    )

    unfoldable pub after_spawn : ℕ → String → Option String → Step (Unit {0})
    unfolding await_tunnel
    after_spawn fuel local_url (some e) m = fail_start (TunnelError.spawn e) m
    after_spawn fuel local_url none m = finish_start local_url (await_tunnel fuel m)

    unfoldable pub launch : ℕ → String → Bool → Step (Unit {0})
    unfolding after_spawn launch_args
    launch fuel local_url true m = raise TunnelError.already_running m
    launch fuel local_url false m =
        let starting = at_rest TunnelStatus.starting none m in
        after_spawn fuel local_url (env.spawned starting.questions (launch_args config local_url))
          (asked starting)

    -- The snapshot that `start` answers is the state that it leaves.
    unfoldable pub start : ℕ → String → Step (Unit {0})
    unfolding launch
    start fuel local_url = do running ← running_child; launch fuel local_url running

    unfoldable pub rotate_from : ℕ → Option TunnelSession → Step (Unit {0})
    unfolding start
    rotate_from fuel none m = raise TunnelError.not_running m
    rotate_from fuel (some session) m = start fuel session.local_url (stop m)

    unfoldable pub rotate : ℕ → Step (Unit {0})
    unfolding rotate_from
    rotate fuel m = rotate_from fuel m.state.session m
