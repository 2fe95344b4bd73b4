-- ===== src/Tunnel/Waits.antt =====
-- The two loops of a start come to an end by their deadlines.
use codex_app.Tunnel.{
  QuickTunnelConfig, TunnelError, Wait, wait_error, runs, exited, Received, line, broken, closed,
  silent, Environment, QuickTunnelManager, asked, paused,
}
use codex_app.Tunnel.Urls.{parse_quick_tunnel_url}
use codex_app.Tunnel.Starting.{
  Step, question, read_clock, alive, url_or, on_received, on_health, wait_for_public_url,
  wait_for_public_health,
}
use codex_app.Prelude.{
  ℕ, zero, suc, String, ◌+◌, ◌≤◌, ◌<◌, Bool, true, false, Option, none, some, ◌≡◌, ◌≢◌, ap, leb,
  nat_eq, min, ◌-◌, refl, Result, ok, err, raise, ◌>>=◌, continue, arith, Bool-cases, inl, inr,
  if◌then◌else◌,
}

-- An outcome that is not the model's own.
unfoldable pub Ends : {A : Type 0} → Result TunnelError A → Type 0
Ends r = r ≢ err TunnelError.out_of_fuel

pub Ends-ok : {A : Type 0} (a : A) → Ends (ok a)
unfolding Ends
Ends-ok a h = cc

lt_irrefl : (n : ℕ) → ¬ (n < n)
lt_irrefl n h = omega arith

early_lt : (a b : ℕ) → leb a b ≡ false → b < a
early_lt a b h = ground arith

remains_lt : (a b : ℕ) → nat_eq (a - b) 0 ≡ false → b < a
remains_lt a b h = ground arith

min_pos : (a b : ℕ) → 0 < a → 0 < b → 0 < min a b
min_pos a b h k = ground arith

abbrev pub is_line : Received → Bool
is_line (line text) = true
is_line _ = false

-- How many of the first answers are lines.
unfoldable pub lines : (ℕ → Received) → ℕ → ℕ
lines recv zero = 0
lines recv (suc n) = let before = lines recv n in if is_line (recv n) then before + 1 else before

next : (n : ℕ) → n + 1 ≡ suc n
next n = omega arith

lines-next :
    (recv : ℕ → Received) (n : ℕ)
    → lines recv (n + 1) ≡ (if is_line (recv n) then lines recv n + 1 else lines recv n)
unfolding lines
lines-next recv n = ap (lines recv) (next n)

lines-grow : (recv : ℕ → Received) (n : ℕ) → lines recv n ≤ lines recv (n + 1)
lines-grow recv n = elim (Bool-cases (is_line (recv n))) [
  | inl e ↦ let more = rw e at (lines-next recv n) in omega arith
  | inr e ↦ let same = rw e at (lines-next recv n) in omega arith
]

lines_at_line :
    (recv : ℕ → Received) (n : ℕ) → is_line (recv n) ≡ true → lines recv n + 1 ≤ lines recv (n + 1)
lines_at_line recv n e = let more = rw e at (lines-next recv n) in omega arith

module _ (config : QuickTunnelConfig) (env : Environment)
    (never_back : (n : ℕ) → env.clock n ≤ env.clock (n + 1)) (polls : 0 < config.poll_interval)
    (printed : ℕ) (prints : (n : ℕ) → lines env.recv n ≤ printed) where
  url_or-Ends :
      (o : Option String) (rest : Step String) (m : QuickTunnelManager)
      → Ends ((rest m).0)
      → Ends ((url_or o rest m).0)
  url_or-Ends none rest m h = h
  url_or-Ends (some url) rest m h = Ends-ok url

  received-Ends :
      (r : Received) (wait_for : ℕ) (rest : Step String) (m : QuickTunnelManager)
      → (is_line r ≡ true → Ends ((rest m).0))
      → Ends ((rest (paused config.poll_interval m)).0)
      → Ends ((rest (paused wait_for m)).0)
      → Ends ((on_received config wait_for r rest m).0)
  unfolding Ends on_received
  received-Ends (line text) wait_for rest m h k l =
      url_or-Ends (parse_quick_tunnel_url text) rest m (h refl)
  received-Ends (broken e) wait_for rest m h k l = λ e'. cc
  received-Ends closed wait_for rest m h k l = k
  received-Ends silent wait_for rest m h k l = l

  -- A round of the first loop ends if each way to the next one does.
  url_round-Ends :
      (w : Wait) (deadline : ℕ) (m : QuickTunnelManager) (rest : Step String)
      → (env.clock m.questions + m.slept < deadline
          → is_line (env.recv (m.questions + 1)) ≡ true
          → Ends ((rest (asked (asked m))).0))
      → (env.clock m.questions + m.slept < deadline
          → (d : ℕ) → 0 < d
          → Ends ((rest (paused d (asked (asked m)))).0))
      → Ends (
          (continue (alive w m) (λ u. do
            now ← read_clock env
            (if nat_eq (deadline - now) 0
                then raise (TunnelError.public_url_timeout config.startup_timeout)
                else do
                  received ← question env.recv
                  on_received config (min (deadline - now) config.poll_interval) received rest))).0)
  unfolding Ends
  url_round-Ends (wait_error e) deadline m rest h k = λ e'. cc
  url_round-Ends (exited s) deadline m rest h k = λ e'. cc
  url_round-Ends runs deadline m rest h k =
      elim (Bool-cases (nat_eq (deadline - (env.clock m.questions + m.slept)) 0)) [
        | inl over ↦ rw over (λ e'. cc)
        | inr early ↦
            let before = remains_lt deadline (env.clock m.questions + m.slept) early in
            rw early (
              received-Ends (env.recv (m.questions + 1))
                (min (deadline - (env.clock m.questions + m.slept)) config.poll_interval) rest
                (asked (asked m)) (h before) (k before config.poll_interval polls)
                (k before _ (
                  min_pos (deadline - (env.clock m.questions + m.slept)) config.poll_interval
                    (omega arith) polls)))
      ]

  -- What is left of the fuel after a round that came before the deadline.
  left_over :
      (fuel deadline q slept : ℕ)
      → deadline + printed < suc fuel + (env.clock q + slept) + lines env.recv q
      → env.clock (q + 1) + slept < deadline
      → 0 < fuel
  left_over fuel deadline q slept h early = omega (arith, never_back q, prints q)

  left_over_line :
      (fuel deadline q slept : ℕ)
      → deadline + printed < suc fuel + (env.clock q + slept) + lines env.recv q
      → is_line (env.recv (q + 1 + 1)) ≡ true
      → deadline + printed
        < fuel + (env.clock (q + 1 + 1 + 1) + slept) + lines env.recv (q + 1 + 1 + 1)
  left_over_line fuel deadline q slept h l = omega (
    arith,
    never_back q,
    never_back (q + 1),
    never_back (q + 1 + 1),
    lines-grow env.recv q,
    lines-grow env.recv (q + 1),
    lines_at_line env.recv (q + 1 + 1) l,
  )

  left_over_pause :
      (fuel deadline q slept d : ℕ)
      → deadline + printed < suc fuel + (env.clock q + slept) + lines env.recv q
      → 0 < d
      → deadline + printed
        < fuel + (env.clock (q + 1 + 1 + 1) + (slept + d)) + lines env.recv (q + 1 + 1 + 1)
  left_over_pause fuel deadline q slept d h l = omega (
    arith,
    never_back q,
    never_back (q + 1),
    never_back (q + 1 + 1),
    lines-grow env.recv q,
    lines-grow env.recv (q + 1),
    lines-grow env.recv (q + 1 + 1),
  )

  -- One round for each tick up to the deadline and each line is enough.
  pub wait_for_public_url-Ends :
      (fuel deadline : ℕ) (m : QuickTunnelManager)
      → 0 < fuel
      → deadline + printed < fuel + (env.clock m.questions + m.slept) + lines env.recv m.questions
      → Ends ((wait_for_public_url config env fuel deadline m).0)
  unfolding wait_for_public_url
  wait_for_public_url-Ends zero deadline m some_left h = absurd (lt_irrefl 0 some_left)
  wait_for_public_url-Ends (suc fuel) deadline m some_left h =
      url_round-Ends (env.try_wait m.questions) deadline (asked m)
        (wait_for_public_url config env fuel deadline)
        (λ early l.
          wait_for_public_url-Ends fuel deadline (asked (asked (asked m)))
            (left_over fuel deadline m.questions m.slept h early)
            (left_over_line fuel deadline m.questions m.slept h l))
        (λ early d pos.
          wait_for_public_url-Ends fuel deadline (paused d (asked (asked (asked m))))
            (left_over fuel deadline m.questions m.slept h early)
            (left_over_pause fuel deadline m.questions m.slept d h pos))

  health_round-Ends :
      (w : Wait) (deadline : ℕ) (public_url : String) (m : QuickTunnelManager)
      (rest : Step (Unit {0}))
      → (leb deadline (env.clock (m.questions + 1) + m.slept) ≡ false
          → Ends ((rest (paused config.poll_interval (asked (asked m)))).0))
      → Ends (
          (continue (alive w m) (λ u. do
            answer ← question (λ n. env.healthy n public_url)
            on_health config env deadline answer rest)).0)
  unfolding Ends
  health_round-Ends (wait_error e) deadline public_url m rest h = λ k. cc
  health_round-Ends (exited s) deadline public_url m rest h = λ k. cc
  health_round-Ends runs deadline public_url m rest h = go (env.healthy m.questions public_url)
    where
      go : (o : Option String) → Ends ((on_health config env deadline o rest (asked m)).0)
      go none = Ends-ok tt
      go (some e) = elim (Bool-cases (leb deadline (env.clock (m.questions + 1) + m.slept))) [
        | inl over ↦ rw over (λ k. cc)
        | inr early ↦ rw early (h early)
      ]

  left_over_health :
      (fuel deadline q slept : ℕ)
      → deadline < suc fuel + (env.clock q + slept)
      → leb deadline (env.clock (q + 1 + 1) + slept) ≡ false
      → (0 < fuel)
        × (deadline < fuel + (env.clock (q + 1 + 1 + 1) + (slept + config.poll_interval)))
  left_over_health fuel deadline q slept h early =
      let ahead = early_lt deadline (env.clock (q + 1 + 1) + slept) early in
      (
        omega (arith, never_back q, never_back (q + 1)),
        omega (arith, never_back q, never_back (q + 1), never_back (q + 1 + 1), polls),
      )

  pub wait_for_public_health-Ends :
      (fuel deadline : ℕ) (public_url : String) (m : QuickTunnelManager)
      → 0 < fuel
      → deadline < fuel + (env.clock m.questions + m.slept)
      → Ends ((wait_for_public_health config env fuel deadline public_url m).0)
  unfolding wait_for_public_health
  wait_for_public_health-Ends zero deadline public_url m some_left h =
      absurd (lt_irrefl 0 some_left)
  wait_for_public_health-Ends (suc fuel) deadline public_url m some_left h =
      health_round-Ends (env.try_wait m.questions) deadline public_url (asked m)
        (wait_for_public_health config env fuel deadline public_url)
        (λ early.
          let (left, later) = left_over_health fuel deadline m.questions m.slept h early in
          wait_for_public_health-Ends fuel deadline public_url
            (paused config.poll_interval (asked (asked (asked m)))) left later)
