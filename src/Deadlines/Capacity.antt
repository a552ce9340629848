-- ===== src/Deadlines/Capacity.antt =====
-- What a claim and a release leave of the capacity and the entries of src/eslams/deadlines.py.
use e_slams.Prelude.{
  ==_iff, Bool, Bool-cases, List, [], ap, arith, count_if, count_if-append, count_if-remove_at,
  count_if-set, false, get_elem?, if_rule, if◌then◌else◌, inl, inr, length, length-append,
  length-set, ltb, not, refl, remove_at, set, some, some-injective, suc, sym, true, zero, ℕ, ◌+◌,
  ◌<◌, ◌==◌, ◌∙◌, ◌∷◌, ◌≡◌, ◌≤◌,
}
use e_slams.Deadlines.{
  Answer, Pool, Worker, call_capacity, calls_has, claim, done, is_available, pop, release, rewrite,
}

abbrev pub of_agent : ℕ → Worker → Bool
of_agent agent w = w.agent == agent

abbrev pub called : ℕ → ℕ → Bool
called agent a = a == agent

-- Every thread has claimed one of the capacity and one entry for its agent, and no agent has two.
pub record IsBalanced (pool : Pool) : Type 0 where
  pub capacity : pool.free + length pool.workers ≡ call_capacity
  pub entries :
      (agent : ℕ) → count_if (called agent) pool.calls ≡ count_if (of_agent agent) pool.workers
  pub single : (agent : ℕ) → count_if (called agent) pool.calls ≤ 1

pub calls_has-count :
    (agent : ℕ) (calls : List ℕ) → calls_has agent calls ≡ ltb 0 (count_if (called agent) calls)
calls_has-count agent [] = refl
calls_has-count agent (a ∷ calls) = let rest = calls_has-count agent calls in ground arith

count-pop :
    (agent b : ℕ) (calls : List ℕ)
    → 0 < count_if (called agent) calls
    → count_if (called b) (pop agent calls) + (if agent == b then 1 else 0)
      ≡ count_if (called b) calls
count-pop agent b [] h = absurd (omega arith)
count-pop agent b (a ∷ calls) h = elim (Bool-cases (a == agent)) [
  | inl q ↦ let same = (==_iff a agent).0 q in rw q (rw same (omega arith))
  | inr q ↦
      let more : 0 < 0 + count_if (called agent) calls = rw q at h in
      let rest = count-pop agent b calls (omega arith) in rw q (omega arith)
]

length-remove_at {ℓ} :
    {A : Type ℓ} (xs : List A) (i : ℕ) (x : A)
    → get_elem? xs i ≡ some x
    → length (remove_at xs i) + 1 ≡ length xs
length-remove_at [] i x h = absurd cc
length-remove_at (y ∷ xs) zero x h = omega arith
length-remove_at (y ∷ xs) (suc i) x h = omega (arith, length-remove_at xs i x h)

pub claim-IsBalanced : (pool : Pool) (agent : ℕ) → IsBalanced pool → IsBalanced (claim pool agent).0
unfolding claim
claim-IsBalanced pool agent b =
    if_rule {A = Pool × Answer} (λ r. IsBalanced r.0) (not (is_available pool agent)) (λ _. b)
      (λ free.
        if_rule {A = Pool × Answer} (λ r. IsBalanced r.0) (pool.free == 0) (λ _. b)
          (λ room.
            let w : Worker = record { agent = agent; started = false; awaited = true } in
            let new = calls_has-count agent pool.calls in
            record {
              capacity =
                  let c = b.capacity in
                  let more = length-append pool.workers (w ∷ []) in ground arith;
              entries = λ a.
                  let e = b.entries a in
                  let more = count_if-append (of_agent a) pool.workers (w ∷ []) in omega arith;
              single = λ a.
                  let s = b.single a in
                  let unknown : calls_has agent pool.calls ≡ false = ground arith in
                  let unclaimed : ltb 0 (count_if (called agent) pool.calls) ≡ false =
                    sym new ∙ unknown in
                  elim (Bool-cases (agent == a)) [
                    | inl q ↦
                        let same = (==_iff agent a).0 q in
                        let unclaimed_a : ltb 0 (count_if (called a) pool.calls) ≡ false =
                          rw same at unclaimed in
                        rw q (ground arith)
                    | inr q ↦ rw q (omega arith)
                  ];
            }))

get_elem?-counted {ℓ} :
    {A : Type ℓ} (p : A → Bool) (xs : List A) (i : ℕ) (x : A)
    → get_elem? xs i ≡ some x
    → p x ≡ true
    → 0 < count_if p xs
get_elem?-counted p [] i x h k = absurd cc
get_elem?-counted p (y ∷ xs) zero x h k =
    let same = some-injective y x h in rw same (rw k (omega arith))
get_elem?-counted p (y ∷ xs) (suc i) x h k =
    let rest = get_elem?-counted p xs i x h k in omega arith

-- The agent of a thread has an entry.
pub claimed :
    (pool : Pool) (i : ℕ) (w : Worker)
    → get_elem? pool.workers i ≡ some w
    → IsBalanced pool
    → 0 < count_if (called w.agent) pool.calls
claimed pool i w at_i b =
    let e = b.entries w.agent in
    let here = get_elem?-counted (of_agent w.agent) pool.workers i w at_i (ground arith) in
    omega arith

pub release-IsBalanced :
    (pool : Pool) (i : ℕ) (w : Worker)
    → get_elem? pool.workers i ≡ some w
    → IsBalanced pool
    → IsBalanced (release pool i w).0 × ((release pool i w).1 ≡ done)
unfolding release
release-IsBalanced pool i w at_i b =
    let fewer = length-remove_at pool.workers i w at_i in
    let c = b.capacity in
    let room : ltb pool.free call_capacity ≡ true = ground arith in
    rw room (
      record {
        capacity = omega arith;
        entries = λ a.
            let e = b.entries a in
            let n = count_if-remove_at (of_agent a) pool.workers i w at_i in
            let p = count-pop w.agent a pool.calls (claimed pool i w at_i b) in omega arith;
        single = λ a.
            let s = b.single a in
            let p = count-pop w.agent a pool.calls (claimed pool i w at_i b) in omega arith;
      },
      refl,
    )

pub rewrite-IsBalanced :
    (pool : Pool) (i : ℕ) (w v : Worker)
    → get_elem? pool.workers i ≡ some w
    → v.agent ≡ w.agent
    → IsBalanced pool
    → IsBalanced (rewrite pool i v)
rewrite-IsBalanced pool i w v at_i same b = record {
  capacity = let c = b.capacity in let n = length-set pool.workers i v in omega arith;
  entries = λ a.
      let e = b.entries a in
      let n = count_if-set (of_agent a) pool.workers i w v at_i in
      let k : of_agent a v ≡ of_agent a w = ap (λ x. x == a) same in
      let n' : count_if (of_agent a) (set pool.workers i v) + (if of_agent a w then 1 else 0)
          ≡ count_if (of_agent a) pool.workers + (if of_agent a w then 1 else 0) =
        n ∙ ap (λ x. count_if (of_agent a) pool.workers + (if x then 1 else 0)) k in
      omega arith;
  single = b.single;
}
