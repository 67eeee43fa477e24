-- ===== src/Scripts/Benchmark/Drain.antt =====
-- The wait of scripts/benchmark.py for the queue: when it ends and what it reports.
use abrio.Prelude.{
  ℕ, zero, suc, ◌+◌, ◌-◌, ◌≤◌, ◌<◌, ◌≡◌, refl, sym, subst, ◌∙◌, inl, inr, max, true, false, Option,
  none, some, List, [], ◌∷◌, All, keep, leb, ◌==◌, ◌||◌, Bool-cases, arith,
}
use abrio.Scripts.Benchmark.{
  Sample, Tally, DrainResult, expect, expected_by_user, expected_total, terminal_total, poll,
  polled, rounds, first_total, sum_sizes, nothing_expected, wait_for_queue_drain, is_accepted,
  accepted_message_count,
}

-- No user is counted for more messages than are expected of it.
abbrev pub Capped : List Tally → Type 0
Capped = All (λ t. t.completed ≤ t.expected)

polled-Capped :
    (t : Tally) (o : Option ℕ)
    → t.completed ≤ t.expected
    → (polled t o).completed ≤ (polled t o).expected
polled-Capped t none h = h
polled-Capped t (some n) h = omega arith

polled-expected : (t : Tally) (o : Option ℕ) → (polled t o).expected ≡ t.expected
polled-expected t none = refl
polled-expected t (some n) = refl

poll-Capped : (s : ℕ → Option ℕ) (ts : List Tally) → Capped ts → Capped (poll s ts)
unfolding poll
poll-Capped s [] h = tt
poll-Capped s (t ∷ ts) h = (polled-Capped t (s t.user_id) h.0, poll-Capped s ts h.1)

expected_total-poll :
    (s : ℕ → Option ℕ) (ts : List Tally) → expected_total (poll s ts) ≡ expected_total ts
unfolding poll
expected_total-poll s [] = refl
expected_total-poll s (t ∷ ts) =
    omega (arith, polled-expected t (s t.user_id), expected_total-poll s ts)

terminal-le-expected : (ts : List Tally) → Capped ts → terminal_total ts ≤ expected_total ts
terminal-le-expected [] h = omega arith
terminal-le-expected (t ∷ ts) h = omega (arith, h.0, terminal-le-expected ts h.1)

expect-Capped : (u n : ℕ) (ts : List Tally) → Capped ts → Capped (expect u n ts)
unfolding expect
expect-Capped u n [] h = (omega arith, tt)
expect-Capped u n (t ∷ ts) h = elim (Bool-cases (t.user_id == u)) [
  | inl e ↦ rw e (omega (arith, h.0), h.1)
  | inr k ↦ rw k (h.0, expect-Capped u n ts h.1)
]

expected_total-expect :
    (u n : ℕ) (ts : List Tally) → expected_total (expect u n ts) ≡ expected_total ts + n
unfolding expect
expected_total-expect u n [] = omega arith
expected_total-expect u n (t ∷ ts) = ground (arith, expected_total-expect u n ts)

expected_by_user-Capped :
    (samples : List Sample) (ts : List Tally) → Capped ts → Capped (expected_by_user samples ts)
unfolding expected_by_user
expected_by_user-Capped [] ts h = h
expected_by_user-Capped (s ∷ samples) ts h =
    expected_by_user-Capped samples (expect s.user_id s.batch_size ts)
      (expect-Capped s.user_id s.batch_size ts h)

-- What a result says of the messages that the run waits for.
pub record IsSettled (expected : ℕ) (r : DrainResult) : Type 0 where
  pub same_expected : r.expected ≡ expected
  pub at_most : r.terminal ≤ expected
  pub peak : r.peak_backlog ≤ expected
  pub all_terminal : r.drained ≡ true → r.terminal ≡ expected
  pub some_left : r.drained ≡ false → r.terminal < expected

expected_total-samples :
    (samples : List Sample) (ts : List Tally)
    → expected_total (expected_by_user samples ts) ≡ expected_total ts + sum_sizes samples
unfolding expected_by_user
expected_total-samples [] ts = omega arith
expected_total-samples (s ∷ samples) ts = omega (
  arith,
  expected_total-samples samples (expect s.user_id s.batch_size ts),
  expected_total-expect s.user_id s.batch_size ts,
)

-- A round before the deadline is not the one that is past it.
not_yet :
    (timeout : ℕ) (elapsed : ℕ → ℕ) (n k : ℕ)
    → leb timeout (elapsed n) ≡ false
    → timeout ≤ elapsed k
    → n ≤ k
    → suc n ≤ k
not_yet timeout elapsed n k early late le = elim (Bool-cases (n == k)) [
  | inl e ↦
      let same : k ≡ n = ground (arith, e) in
      let again : timeout ≤ elapsed n = subst (λ m. timeout ≤ elapsed m) same late in
      absurd (ground (arith, early, again))
  | inr ne ↦ ground (arith, ne, le)
]

module _ (summary : ℕ → ℕ → Option ℕ) (elapsed : ℕ → ℕ) (timeout expected : ℕ) where
  rounds-IsSettled :
      (fuel n k : ℕ) (ts : List Tally) (peak : ℕ) (start : Option ℕ)
      → Capped ts
      → expected_total ts ≡ expected
      → peak ≤ expected
      → timeout ≤ elapsed k
      → n ≤ k
      → k < n + fuel
      → (r : DrainResult) × (rounds summary elapsed timeout expected fuel n ts peak start ≡ some r)
        × IsSettled expected r
  unfolding rounds
  rounds-IsSettled zero n k ts peak start capped total small late le lt = absurd (omega arith)
  rounds-IsSettled (suc fuel) n k ts peak start capped total small late le lt =
      let total' = terminal_total (poll (summary n) ts) in
      let peak' = max peak (expected - total') in
      let capped' = poll-Capped (summary n) ts capped in
      let same = expected_total-poll (summary n) ts ∙ total in
      let bound : total' ≤ expected =
        omega (arith, same, terminal-le-expected (poll (summary n) ts) capped') in
      elim (Bool-cases (leb expected total' || leb timeout (elapsed n))) [
        | inl stop ↦ (
          record {
            drained = leb expected total';
            elapsed = elapsed n;
            expected = expected;
            terminal = total';
            peak_backlog = peak';
            terminal_at_start = first_total start total';
          },
          rw stop refl,
          record {
            same_expected = refl;
            at_most = bound;
            peak = omega (arith, small);
            all_terminal = λ d. ground (arith, d, bound);
            some_left = λ d. ground (arith, d);
          },
        )
        | inr go ↦
            let (r, e, s) =
              rounds-IsSettled fuel (suc n) k (poll (summary n) ts) peak'
                (some (first_total start total')) capped' same (omega (arith, small)) late
                (not_yet timeout elapsed n k (ground (arith, go)) late le) (omega arith) in
            (r, rw go e, s)
      ]

-- If the clock of some round is past the timeout, the wait for the queue ends within enough rounds
-- for that one, and its result expects the accepted messages of the samples, reports no more
-- terminal messages and no larger backlog than these, and is drained exactly if all of them are
-- terminal.
pub wait_for_queue_drain-IsSettled :
    (summary : ℕ → ℕ → Option ℕ) (elapsed : ℕ → ℕ) (timeout fuel k : ℕ) (samples : List Sample)
    → timeout ≤ elapsed k
    → k < fuel
    → (r : DrainResult) × (wait_for_queue_drain summary elapsed timeout fuel samples ≡ some r)
      × IsSettled (accepted_message_count samples) r
unfolding wait_for_queue_drain accepted_message_count
wait_for_queue_drain-IsSettled summary elapsed timeout fuel k samples late lt =
    let good = keep is_accepted samples in
    let ts = expected_by_user good [] in
    let same : expected_total ts ≡ sum_sizes good = expected_total-samples good [] ∙ omega arith in
    elim (Bool-cases (expected_total ts == 0)) [
      | inl none_expected ↦
          let zero_sum : sum_sizes good ≡ 0 = ground (arith, none_expected, same) in
          (
            nothing_expected,
            rw none_expected refl,
            record {
              same_expected = sym zero_sum;
              at_most = omega arith;
              peak = omega arith;
              all_terminal = λ d. sym zero_sum;
              some_left = λ d. cc;
            },
          )
      | inr many ↦
          let (r, e, s) =
            rounds-IsSettled summary elapsed timeout (expected_total ts) fuel 0 k ts 0 none
              (expected_by_user-Capped good [] tt) refl (omega arith) late (omega arith)
              (omega arith) in
          (r, rw many e, subst (λ n. IsSettled n r) same s)
    ]
