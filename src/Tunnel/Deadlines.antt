-- ===== src/Tunnel/Deadlines.antt =====
-- A start comes to an end by its deadlines.
use codex_app.Tunnel.{
  QuickTunnelConfig, TunnelError, Wait, wait_error, runs, exited, Environment, QuickTunnelManager,
  asked,
}
use codex_app.Tunnel.Starting.{
  read_clock, still_running, wait_for_public_url, wait_for_public_health, await_tunnel,
  finish_start, after_spawn, launch, start,
}
use codex_app.Prelude.{
  ℕ, String, ◌+◌, ◌≤◌, ◌<◌, Bool, true, false, Option, none, some, ◌≢◌, ap, Result, ok, err, pure,
  ◌>>=◌, ◌>>◌, continue, arith, if◌then◌else◌,
}
use codex_app.Tunnel.Waits.{
  Ends, Ends-ok, lines, wait_for_public_url-Ends, wait_for_public_health-Ends,
}

relabel : {A B : Type 0} → Result TunnelError A → Result TunnelError B
relabel (ok a) = err TunnelError.already_running
relabel (err e) = err e

err-Ends : (A B : Type 0) (e : TunnelError) → Ends {A = A} (err e) → Ends {A = B} (err e)
unfolding Ends relabel
err-Ends A B e h k = h (ap relabel k)

module _ (config : QuickTunnelConfig) (env : Environment)
    (never_back : (n : ℕ) → env.clock n ≤ env.clock (n + 1)) (polls : 0 < config.poll_interval)
    (printed : ℕ) (prints : (n : ℕ) → lines env.recv n ≤ printed) where
  -- What follows the public URL.
  then_healthy-Ends :
      (fuel : ℕ) (r : Result TunnelError String) (m : QuickTunnelManager)
      → config.startup_timeout + printed < fuel
      → Ends r
      → Ends (
          (continue
            (r, m)
            (λ public_url. do
              at' ← read_clock env
              wait_for_public_health config env fuel (at' + config.startup_timeout) public_url
              pure public_url)).0)
  unfolding Ends
  then_healthy-Ends fuel (err e) m enough ends = err-Ends String String e ends
  then_healthy-Ends fuel (ok public_url) m enough ends =
      go (wait_for_public_health config env fuel deadline public_url (asked m)) healthy
    where
      deadline : ℕ
      deadline = env.clock m.questions + m.slept + config.startup_timeout

      healthy : Ends ((wait_for_public_health config env fuel deadline public_url (asked m)).0)
      healthy =
          wait_for_public_health-Ends config env never_back polls printed prints fuel deadline
            public_url (asked m) (omega arith) (omega (arith, never_back m.questions))

      go :
          (o : Result TunnelError (Unit {0}) × QuickTunnelManager)
          → Ends o.0
          → Ends ((continue o (λ u. pure {E = TunnelError} {S = QuickTunnelManager} public_url)).0)
      go (ok u, m') h = Ends-ok public_url
      go (err e, m') h = err-Ends Unit String e h

  await_tunnel-Ends :
      (fuel : ℕ) (m : QuickTunnelManager)
      → config.startup_timeout + printed < fuel
      → Ends ((await_tunnel config env fuel m).0)
  unfolding await_tunnel
  await_tunnel-Ends fuel m enough = then_healthy-Ends fuel (waited.0) (waited.1) enough (
      wait_for_public_url-Ends config env never_back polls printed prints fuel deadline (asked m)
        (omega arith) (omega (arith, never_back m.questions)))
    where
      deadline : ℕ
      deadline = env.clock m.questions + m.slept + config.startup_timeout

      waited : Result TunnelError String × QuickTunnelManager
      waited = wait_for_public_url config env fuel deadline (asked m)

  module _ (display : TunnelError → String) where
    finish_start-Ends :
        (local_url : String) (r : Result TunnelError String × QuickTunnelManager)
        → Ends r.0
        → Ends ((finish_start config env display local_url r).0)
    finish_start-Ends local_url (ok public_url, m) h = Ends-ok tt
    finish_start-Ends local_url (err e, m) h = err-Ends String Unit e h

    after_spawn-Ends :
        (fuel : ℕ) (local_url : String) (o : Option String) (m : QuickTunnelManager)
        → config.startup_timeout + printed < fuel
        → Ends ((after_spawn config env display fuel local_url o m).0)
    unfolding after_spawn Ends
    after_spawn-Ends fuel local_url (some e) m enough = λ k. cc
    after_spawn-Ends fuel local_url none m enough =
        finish_start-Ends local_url (await_tunnel config env fuel m)
          (await_tunnel-Ends fuel m enough)

    launch_if-Ends :
        (fuel : ℕ) (local_url : String) (child : Bool) (w : Wait) (m : QuickTunnelManager)
        → config.startup_timeout + printed < fuel
        → Ends (
            (continue
              (if child then still_running w (asked m) else (ok false, m))
              (launch config env display fuel local_url)).0)
    unfolding launch Ends
    launch_if-Ends fuel local_url false w m enough = after_spawn-Ends fuel local_url _ _ enough
    launch_if-Ends fuel local_url true (wait_error e) m enough = λ k. cc
    launch_if-Ends fuel local_url true runs m enough = λ k. cc
    launch_if-Ends fuel local_url true (exited s) m enough =
        after_spawn-Ends fuel local_url _ _ enough

    -- Where the clock never goes back and shows at least the time of each sleep and of each wait that
    -- has run out, the poll interval is not zero, and the child prints at most `printed` lines: a
    -- start, whatever else the child, the operating system and the health probe answer, ends by itself,
    -- as many rounds of each of its two loops as the startup timeout has ticks and the child prints
    -- lines, and one more, being enough.
    pub start_ends :
        (fuel : ℕ) (local_url : String) (m : QuickTunnelManager)
        → config.startup_timeout + printed < fuel
        → (start config env display fuel local_url m).0 ≢ err TunnelError.out_of_fuel
    unfolding start Ends
    start_ends fuel local_url m enough =
        launch_if-Ends fuel local_url m.child (env.try_wait m.questions) m enough
