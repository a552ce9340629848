-- ===== src/Sessions/Reaping.antt =====
-- What `_reap_locked` of src/eslams/runner_session.py closes and drops, and what it leaves alone.
use e_slams.Prelude.{
  &&_split, ==_iff, All, All-map, All-zip, Bool-cases, List, String, [], ap, arith, eq_iff, false,
  inl, inr, is_some, length, refl, str_eq, sym, true, ℕ, ◌==◌, ◌∙◌, ◌∷◌, ◌≡◌, ◌≢◌, ◌≤◌,
}
use e_slams.Sessions.{Session, closed_session, find, is_idle, reap_entries, write}

-- No id has two entries.
abbrev pub Distinct : List (String × ℕ) → Type 0
Distinct [] = Unit
Distinct (e ∷ t) = (is_some (find e.0 t) ≡ false) × Distinct t

module _ {S : Type 0} where
  -- A field that is the same in the object written as in the one before is the same everywhere.
  pub write-keeps {ℓ} :
      {B : Type ℓ} (f : Session S → B) (heap : ℕ → Session S) (ref : ℕ) (s : Session S) (r : ℕ)
      → f s ≡ f (heap ref)
      → f (write heap ref s r) ≡ f (heap r)
  write-keeps f heap ref s r e = elim (Bool-cases (r == ref)) [
    | inl q ↦ let same = (==_iff r ref).0 q in rw (q, same) e
    | inr q ↦ rw q refl
  ]

  pub write_ne {ℓ} :
      {B : Type ℓ} (f : Session S → B) (heap : ℕ → Session S) (ref : ℕ) (s : Session S) (r : ℕ)
      → (r == ref) ≡ false
      → f (write heap ref s r) ≡ f (heap r)
  write_ne f heap ref s r q = rw q refl

  -- An object that reaping closes was open to it: idle, with no user.
  pub record IsReaped (heap heap' : ℕ → Session S) : Type 0 where
    pub same_users : (r : ℕ) → (heap' r).users ≡ (heap r).users
    pub same_id : (r : ℕ) → (heap' r).session_id ≡ (heap r).session_id
    pub same_activity : (r : ℕ) → (heap' r).activity ≡ (heap r).activity
    pub same_state : (r : ℕ) → (heap' r).state ≡ (heap r).state
    pub still_open :
        (r : ℕ) → (heap r).closed ≡ false → (heap r).users ≢ 0 → (heap' r).closed ≡ false

  closing-IsReaped :
      (ttl now : ℕ) (heap : ℕ → Session S) (ref : ℕ)
      → is_idle ttl now (heap ref) ≡ true
      → IsReaped heap (write heap ref (closed_session (heap ref)))
  closing-IsReaped ttl now heap ref idle = record {
    same_users = λ r. write-keeps (λ s. s.users) heap ref (closed_session (heap ref)) r refl;
    same_id = λ r. write-keeps (λ s. s.session_id) heap ref (closed_session (heap ref)) r refl;
    same_activity = λ r. write-keeps (λ s. s.activity) heap ref (closed_session (heap ref)) r refl;
    same_state = λ r. write-keeps (λ s. s.state) heap ref (closed_session (heap ref)) r refl;
    still_open = λ r o used. elim (Bool-cases (r == ref)) [
      | inr q ↦ write_ne (λ s. s.closed) heap ref (closed_session (heap ref)) r q ∙ o
      | inl q ↦
          let same = (==_iff r ref).0 q in
          let none_left = (==_iff (heap ref).users 0).0 (&&_split _ _ idle).0 in
          absurd (used (rw same none_left))
    ];
  }

  then-IsReaped : (a b c : ℕ → Session S) → IsReaped a b → IsReaped b c → IsReaped a c
  then-IsReaped a b c p q = record {
    same_users = λ r. q.same_users r ∙ p.same_users r;
    same_id = λ r. q.same_id r ∙ p.same_id r;
    same_activity = λ r. q.same_activity r ∙ p.same_activity r;
    same_state = λ r. q.same_state r ∙ p.same_state r;
    still_open =
        λ r o used. q.still_open r (p.still_open r o used) (λ e. used (sym (p.same_users r) ∙ e));
  }

  pub reap_entries-IsReaped :
      (t : List (String × ℕ)) (ttl now : ℕ) (heap : ℕ → Session S)
      → IsReaped heap (reap_entries ttl now heap t).0
  unfolding reap_entries
  reap_entries-IsReaped [] ttl now heap = record {
    same_users = λ r. refl;
    same_id = λ r. refl;
    same_activity = λ r. refl;
    same_state = λ r. refl;
    still_open = λ r o used. o;
  }
  reap_entries-IsReaped ((k, ref) ∷ t) ttl now heap =
      elim (Bool-cases (is_idle ttl now (heap ref))) [
        | inl idle ↦ rw idle (
            then-IsReaped heap _ _ (closing-IsReaped ttl now heap ref idle)
              (reap_entries-IsReaped t ttl now (write heap ref (closed_session (heap ref)))))
        | inr busy ↦ rw busy (reap_entries-IsReaped t ttl now heap)
      ]

  -- An object that reaping closed is idle.
  closed_idle :
      (t : List (String × ℕ)) (ttl now : ℕ) (heap : ℕ → Session S) (r : ℕ)
      → (heap r).closed ≡ false
      → is_idle ttl now (heap r) ≡ false
      → ((reap_entries ttl now heap t).0 r).closed ≡ false
  unfolding reap_entries
  closed_idle [] ttl now heap r o busy = o
  closed_idle ((k, ref) ∷ t) ttl now heap r o busy =
      elim (Bool-cases (is_idle ttl now (heap ref))) [
        | inr q ↦ rw q (closed_idle t ttl now heap r o busy)
        | inl q ↦
            let other : (r == ref) ≡ false = elim (Bool-cases (r == ref)) [
              | inr z ↦ z
              | inl z ↦ absurd (let same = (==_iff r ref).0 z in let k = rw same at busy in cc)
            ] in
            rw q (
              closed_idle t ttl now (write heap ref (closed_session (heap ref))) r
                (write_ne (λ s. s.closed) heap ref (closed_session (heap ref)) r other ∙ o)
                (write_ne (λ s. is_idle ttl now s) heap ref (closed_session (heap ref)) r other
                  ∙ busy))
      ]

  -- What a predicate of the entries says survives, since entries are only dropped.
  pub reap_entries-All {κ} :
      (P : String × ℕ → Type κ) (t : List (String × ℕ)) (ttl now : ℕ) (heap : ℕ → Session S)
      → All P t
      → All P (reap_entries ttl now heap t).1
  unfolding reap_entries
  reap_entries-All P [] ttl now heap h = tt
  reap_entries-All P ((k, ref) ∷ t) ttl now heap (h, hs) =
      elim (Bool-cases (is_idle ttl now (heap ref))) [
        | inl q ↦ rw q (reap_entries-All P t ttl now _ hs)
        | inr q ↦ rw q (h, reap_entries-All P t ttl now heap hs)
      ]

  pub reap_entries-find :
      (id : String) (t : List (String × ℕ)) (ttl now : ℕ) (heap : ℕ → Session S)
      → is_some (find id t) ≡ false
      → is_some (find id (reap_entries ttl now heap t).1) ≡ false
  unfolding reap_entries
  reap_entries-find id [] ttl now heap h = h
  reap_entries-find id ((k, ref) ∷ t) ttl now heap h = elim (Bool-cases (str_eq k id)) [
    | inl e ↦ absurd (let bad = rw e at h in cc)
    | inr e ↦
        let rest : is_some (find id t) ≡ false = rw e at h in
        elim (Bool-cases (is_idle ttl now (heap ref))) [
          | inl q ↦ rw q (reap_entries-find id t ttl now _ rest)
          | inr q ↦ rw (q, e) (reap_entries-find id t ttl now heap rest)
        ]
  ]

  pub reap_entries-Distinct :
      (t : List (String × ℕ)) (ttl now : ℕ) (heap : ℕ → Session S)
      → Distinct t
      → Distinct (reap_entries ttl now heap t).1
  unfolding reap_entries
  reap_entries-Distinct [] ttl now heap d = tt
  reap_entries-Distinct ((k, ref) ∷ t) ttl now heap (h, d) =
      elim (Bool-cases (is_idle ttl now (heap ref))) [
        | inl q ↦ rw q (reap_entries-Distinct t ttl now _ d)
        | inr q ↦
            rw q (reap_entries-find k t ttl now heap h, reap_entries-Distinct t ttl now heap d)
      ]

  pub length-reap_entries :
      (t : List (String × ℕ)) (ttl now : ℕ) (heap : ℕ → Session S)
      → length (reap_entries ttl now heap t).1 ≤ length t
  unfolding reap_entries
  length-reap_entries [] ttl now heap = omega arith
  length-reap_entries ((k, ref) ∷ t) ttl now heap = elim (Bool-cases (is_idle ttl now (heap ref))) [
    | inl q ↦
        let rest = length-reap_entries t ttl now (write heap ref (closed_session (heap ref))) in
        rw q (omega arith)
    | inr q ↦ let rest = length-reap_entries t ttl now heap in rw q (omega arith)
  ]

  -- No other entry is of the object that an id stands for.
  pub other_entries :
      (t : List (String × ℕ)) (heap : ℕ → Session S) (id : String) (ref : ℕ)
      → (heap ref).session_id ≡ id
      → is_some (find id t) ≡ false
      → All (λ e. (heap e.1).session_id ≡ e.0) t
      → All (λ e. (e.1 == ref) ≡ false) t
  other_entries [] heap id ref named h n = tt
  other_entries ((k, r) ∷ t) heap id ref named h (n, ns) = elim (Bool-cases (str_eq k id)) [
    | inl e ↦ absurd (let bad = rw e at h in cc)
    | inr e ↦
        let apart : (r == ref) ≡ false = elim (Bool-cases (r == ref)) [
          | inr z ↦ z
          | inl z ↦
              let same = (==_iff r ref).0 z in
              let k_id : k ≡ id = sym n ∙ ap (λ x. (heap x).session_id) same ∙ named in
              let bad = (eq_iff k id).1 k_id in absurd cc
        ] in
        (apart, other_entries t heap id ref named (rw e at h) ns)
  ]

  -- The entries that are kept are of open objects.
  pub reap_entries_open :
      (t : List (String × ℕ)) (ttl now : ℕ) (heap : ℕ → Session S)
      → All (λ e. (heap e.1).closed ≡ false) t
      → Distinct t
      → All (λ e. (heap e.1).session_id ≡ e.0) t
      → All
          (λ e. ((reap_entries ttl now heap t).0 e.1).closed ≡ false)
          (reap_entries ttl now heap t).1
  unfolding reap_entries
  reap_entries_open [] ttl now heap h d n = tt
  reap_entries_open ((k, ref) ∷ t) ttl now heap (h, hs) (u, d) (n, ns) =
      elim (Bool-cases (is_idle ttl now (heap ref))) [
        | inr q ↦
            rw q (closed_idle t ttl now heap ref h q, reap_entries_open t ttl now heap hs d ns)
        | inl q ↦
            let s = closed_session (heap ref) in
            let others = other_entries t heap k ref n u ns in
            rw q (
              reap_entries_open t ttl now (write heap ref s)
                (All-zip _ _ _ t (λ e apart o. write_ne (λ x. x.closed) heap ref s e.1 apart ∙ o)
                  others hs)
                d
                (All-map _ _ t (λ e m. write-keeps (λ x. x.session_id) heap ref s e.1 refl ∙ m) ns))
      ]
