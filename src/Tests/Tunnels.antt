-- ===== src/Tests/Tunnels.antt =====
-- A tunnel in a concrete environment.
use codex_app.Tunnel.{QuickTunnelConfig, TunnelError, Environment, new_manager, runs, line, silent}
use codex_app.Tunnel.Starting.{start}
use codex_app.Tunnel.Consistency.{
  start_at, refresh, replace_it, Consistent, tunnel_calls, tunnel_calls-Consistent,
}
use codex_app.Tunnel.Waits.{lines}
use codex_app.Tunnel.Deadlines.{start_ends}
use codex_app.Prelude.{
  ℕ, zero, suc, refl, ◌≡◌, ltb, Bool-cases, inl, inr, String, ◌+◌, ◌≢◌, ◌≤◌, none, [], ◌∷◌, err,
  arith, nat_eq, if◌then◌else◌,
}

abbrev environment : Environment
environment = record {
  spawned = λ n args. none;
  try_wait = λ n. runs;
  recv = λ n. if nat_eq n 7 then line "INF |  https://a-b.trycloudflare.com  |" else silent;
  healthy = λ n url. none;
  clock = λ n. n;
  wall_clock = λ n. 1_700_000_000_000 + n;
  new_v4 = λ n. "session";
}

abbrev tunnel_config : QuickTunnelConfig
tunnel_config = record { args_template = "tunnel" ∷ []; startup_timeout = 20; poll_interval = 1 }

abbrev shown : TunnelError → String
shown e = "failed"

tunnel_calls-Consistent_example : Consistent (
    tunnel_calls environment tunnel_config shown 21
      (start_at "http://l" ∷ refresh ∷ replace_it ∷ [])
      new_manager)
tunnel_calls-Consistent_example =
    tunnel_calls-Consistent environment tunnel_config shown 21
      (start_at "http://l" ∷ refresh ∷ replace_it ∷ [])

never_back : (n : ℕ) → n ≤ n + 1
never_back n = omega arith

-- The one line is the answer to question 7.
lines_until : (n : ℕ) → lines environment.recv n ≡ (if ltb 7 n then 1 else 0)
unfolding lines
lines_until zero = refl
lines_until (suc n) =
    rw (lines_until n)
      (elim (Bool-cases (nat_eq n 7)) [ inl e ↦ rw e (ground arith) | inr e ↦ rw e (ground arith) ])

prints : (n : ℕ) → lines environment.recv n ≤ 1
prints n = let until = lines_until n in ground arith

start_ends_example :
    (start tunnel_config environment shown 22 "http://l" new_manager).0
    ≢ err TunnelError.out_of_fuel
start_ends_example =
    start_ends tunnel_config environment never_back (omega arith) 1 prints shown 22 "http://l"
      new_manager (omega arith)
