-- ===== src/Prelude/Loops.antt =====
-- Loops with early exits: a body that stops (`break`) or goes on, and the rules for its loop.
use Prim.Native.Nat.{ℕ, zero, suc, ◌≤◌, ◌<◌}
use mathlib.Core.Path.{◌≡◌, refl}
use mathlib.Core.Logic.{◌⊎◌, inl, inr}
use mathlib.Core.Bool.{Bool, true, false}
use mathlib.Core.Option.{Option, none, some, some-injective}
use native.Mathlib.Omega.{arith}
use e_slams.Prelude.Tests.{Bool-cases, if◌then◌else◌}

pub data Flow {ℓ} (S A : Type ℓ) : Type ℓ where
  halt : S → Flow S A
  go_on : S → A → Flow S A

module _ {ℓ} {S A : Type ℓ} where
  -- A flow that stops in one predicate and goes on in another.
  abbrev pub Ends {κ} : (S → Type κ) → (S → Type κ) → Flow S A → Type κ
  Ends P Q (halt s) = P s
  Ends P Q (go_on s a) = Q s

  -- `while test(s): body`, where the body may break; `none` is the end of the fuel.
  unfoldable pub while_flow : ℕ → (S → Bool) → (S → Flow S A) → S → Option S
  while_flow zero test body s = if test s then none else some s
  while_flow (suc fuel) test body s = elim (test s) [
    | false ↦ some s
    | true ↦ elim (body s) [ halt t ↦ some t | go_on t _ ↦ while_flow fuel test body t ]
  ]

  Flow-cases : (f : Flow S A) → ((t : S) × (f ≡ halt t)) ⊎ ((t : S) × (a : A) × (f ≡ go_on t a))
  Flow-cases (halt t) = inl (t, refl)
  Flow-cases (go_on t a) = inr (t, a, refl)

  -- The loop ends by a break or by its test.
  pub while_flow_inv {κ} :
      (P Q : S → Type κ) (test : S → Bool) (body : S → Flow S A)
      → ((s : S) → P s → test s ≡ true → Ends Q P (body s))
      → (fuel : ℕ) (s t : S) → P s
      → while_flow fuel test body s ≡ some t
      → Q t ⊎ (P t × (test t ≡ false))
  unfolding while_flow
  while_flow_inv P Q test body keep zero s t p h = elim (Bool-cases (test s)) [
    | inl e ↦ let h' : none ≡ some t = rw e at h in cc
    | inr e ↦
        let h' : some s ≡ some t = rw e at h in
        let q = some-injective s t h' in rw (← q) (inr (p, e))
  ]
  while_flow_inv P Q test body keep (suc fuel) s t p h = elim (Bool-cases (test s)) [
    | inr e ↦
        let h' : some s ≡ some t = rw (e, while_flow) at h in
        let q = some-injective s t h' in rw (← q) (inr (p, e))
    | inl e ↦ elim (Flow-cases (body s)) [
      | inl (u, b) ↦
          let h' : some u ≡ some t = rw (e, b, while_flow) at h in
          let k : Q u = rw b at (keep s p e) in let q = some-injective u t h' in rw (← q) (inl k)
      | inr (u, a, b) ↦
          let h' : while_flow fuel test body u ≡ some t = rw (e, b, while_flow) at h in
          let k : P u = rw b at (keep s p e) in while_flow_inv P Q test body keep fuel u t k h'
    ]
  ]

  -- With a measure that falls, and fuel for it, the loop ends.
  pub while_flow_total {κ} :
      (P : S → Type κ) (measure : S → ℕ) (test : S → Bool) (body : S → Flow S A)
      → ((s u : S) (a : A)
          → P s
          → test s ≡ true
          → body s ≡ go_on u a
          → P u × (measure u < measure s))
      → ((s : S) → P s → test s ≡ true → 0 < measure s)
      → (fuel : ℕ) (s : S) → P s
      → measure s ≤ fuel
      → (t : S) × (while_flow fuel test body s ≡ some t)
  unfolding while_flow
  while_flow_total P measure test body falls positive zero s p m = elim (Bool-cases (test s)) [
    | inl e ↦ let k = positive s p e in absurd (omega arith)
    | inr e ↦ (s, rw e)
  ]
  while_flow_total P measure test body falls positive (suc fuel) s p m =
      elim (Bool-cases (test s)) [
        | inr e ↦ (s, rw (e, while_flow))
        | inl e ↦ elim (Flow-cases (body s)) [
          | inl (u, b) ↦ (u, rw (e, b, while_flow))
          | inr (u, a, b) ↦
              let (q, lt) = falls s u a p e b in
              let (t, r) =
                while_flow_total P measure test body falls positive fuel u q (omega arith) in
              (t, rw (e, b, while_flow) r)
        ]
      ]
