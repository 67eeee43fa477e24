-- ===== src/Startup.antt =====
-- src/backend_pre_start.py: `wait_for_database`. `ready` is whether the database answers an attempt.
use abrio.Prelude.{
  ℕ, ltb, subst, zero, suc, ◌+◌, ◌≤◌, ◌<◌, ◌≡◌, inl, inr, Bool, true, false, Option, none, some,
  Bool-cases, arith, if◌then◌else◌,
}

-- The attempts from `attempt` on, `left` of them: the one that found the database.
unfoldable pub wait_from : (ℕ → Bool) → ℕ → ℕ → Option ℕ
wait_from ready attempt zero = none
wait_from ready attempt (suc left) =
    let rest = wait_from ready (suc attempt) left in if ready attempt then some attempt else rest

-- `none` is the `RuntimeError`.
unfoldable pub wait_for_database : (ℕ → Bool) → ℕ → Option ℕ
unfolding wait_from
wait_for_database ready retries = wait_from ready 1 retries

-- What an end of the attempts says of them.
abbrev pub IsEnd : (ℕ → Bool) → ℕ → ℕ → Option ℕ → Type 0
IsEnd ready attempt left none = (k : ℕ) → attempt ≤ k → k < attempt + left → ready k ≡ false
IsEnd ready attempt left (some n) =
    (attempt ≤ n)
    × (n < attempt + left)
    × (ready n ≡ true)
    × ((k : ℕ) → attempt ≤ k → k < n → ready k ≡ false)

first_fails :
    (ready : ℕ → Bool) (attempt k : ℕ)
    → ready attempt ≡ false
    → attempt ≤ k
    → (suc attempt ≤ k → ready k ≡ false)
    → ready k ≡ false
first_fails ready attempt k e le h = elim (Bool-cases (ltb attempt k)) [
  | inl more ↦ h (ground (arith, more))
  | inr same_one ↦
      let eq : attempt ≡ k = ground (arith, same_one, le) in subst (λ n. ready n ≡ false) eq e
]

later-IsEnd :
    (ready : ℕ → Bool) (attempt left : ℕ) (o : Option ℕ)
    → ready attempt ≡ false
    → IsEnd ready (suc attempt) left o
    → IsEnd ready attempt (suc left) o
later-IsEnd ready attempt left none e h =
    λ k le lt. first_fails ready attempt k e le (λ more. h k more (omega (arith, lt)))
later-IsEnd ready attempt left (some n) e h = (
  omega (arith, h.0),
  omega (arith, h.1),
  h.2,
  λ k le lt. first_fails ready attempt k e le (λ more. h.3 k more lt),
)

wait_from-IsEnd :
    (ready : ℕ → Bool) (attempt left : ℕ) → IsEnd ready attempt left (wait_from ready attempt left)
unfolding wait_from
wait_from-IsEnd ready attempt zero = λ k le lt. absurd (omega (arith, le, lt))
wait_from-IsEnd ready attempt (suc left) = elim (Bool-cases (ready attempt)) [
  | inl e ↦ rw e (omega arith, omega arith, e, λ k le lt. absurd (omega (arith, le, lt)))
  | inr e ↦ rw e (
      later-IsEnd ready attempt left (wait_from ready (suc attempt) left) e
        (wait_from-IsEnd ready (suc attempt) left))
]

-- The wait ends after at most the configured attempts: at the first one that finds the database,
-- or in the error, exactly if none does.
pub wait_for_database_lem :
    (ready : ℕ → Bool) (retries : ℕ) → IsEnd ready 1 retries (wait_for_database ready retries)
unfolding wait_for_database
wait_for_database_lem ready retries = wait_from-IsEnd ready 1 retries
