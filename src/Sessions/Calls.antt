-- ===== src/Sessions/Calls.antt =====
-- The steps of a lease but the closing of its session keep a session store sound.
use e_slams.Prelude.{
  ==_iff, All-append, All-get_elem?, All-map, All-remove_at, All-set, Bool-cases, Option, String,
  [], arith, count_if-append, count_if-remove_at, count_if-set, false, get_elem?, if_rule, inl, inr,
  none, refl, some, ℕ, ◌+◌, ◌-◌, ◌==◌, ◌∙◌, ◌∷◌, ◌≡◌,
}
use e_slams.Sessions.{
  Answer, Lease, Session, Store, advance, end_lease, enter, find, holds_lock, inside, is_locked,
  leaving, set_phase, take_lease, waiting, write,
}
use e_slams.Sessions.Reaping.{write-keeps}
use e_slams.Sessions.Table.{find-All}
use e_slams.Sessions.Sound.{IsSound, of_ref}

module _ {S : Type 0} where
  -- Writes that leave users, id and closing alone keep a store sound.
  touched-IsSound :
      (st : Store S) (ref : ℕ) (s : Session S)
      → s.users ≡ (st.heap ref).users
      → s.session_id ≡ (st.heap ref).session_id
      → s.closed ≡ (st.heap ref).closed
      → IsSound st
      → IsSound (record st { heap = write st.heap ref s })
  touched-IsSound st ref s u n c sound = record {
    distinct = sound.distinct;
    open_table =
        All-map _ _ st.table (λ e o. write-keeps (λ x. x.closed) st.heap ref s e.1 c ∙ o)
          sound.open_table;
    named =
        All-map _ _ st.table (λ e m. write-keeps (λ x. x.session_id) st.heap ref s e.1 n ∙ m)
          sound.named;
    allocated = sound.allocated;
    within = sound.within;
    lease_named =
        All-map _ _ st.leases (λ l m. write-keeps (λ x. x.session_id) st.heap ref s l.ref n ∙ m)
          sound.lease_named;
    lease_allocated = sound.lease_allocated;
    counted = λ r. write-keeps (λ x. x.users) st.heap ref s r u ∙ sound.counted r;
    exclusive = sound.exclusive;
    working =
        All-map _ _ st.leases (λ l w i. write-keeps (λ x. x.closed) st.heap ref s l.ref c ∙ w i)
          sound.working;
  }

  pub advance-IsSound :
      (st : Store S) (l : Lease) (next : Option S) (wall : ℕ)
      → IsSound st
      → IsSound (advance st l next wall)
  advance-IsSound st l none wall sound = touched-IsSound st l.ref _ refl refl refl sound
  advance-IsSound st l (some state) wall sound = touched-IsSound st l.ref _ refl refl refl sound

  -- The users of an object after a write, where it is the one written and where it is not.
  pub users_write :
      (heap : ℕ → Session S) (ref : ℕ) (s : Session S) (r n : ℕ)
      → (r ≡ ref → s.users ≡ n)
      → ((r == ref) ≡ false → (heap r).users ≡ n)
      → (write heap ref s r).users ≡ n
  users_write heap ref s r n h k = elim (Bool-cases (r == ref)) [
    | inl q ↦ rw q (h ((==_iff r ref).0 q))
    | inr q ↦ rw q (k q)
  ]

  -- A write that changes the users by what the leases change by.
  pub take_lease-IsSound :
      (st : Store S) (id : String) (r : ℕ)
      → find id st.table ≡ some r
      → IsSound st
      → IsSound (take_lease st id (some r)).0
  unfolding take_lease
  take_lease-IsSound st id r found sound =
      let s : Session S = record (st.heap r) { users = (st.heap r).users + 1 } in
      let l : Lease = record { id = id; ref = r; phase = waiting } in
      record {
        distinct = sound.distinct;
        open_table =
            All-map _ _ st.table (λ e o. write-keeps (λ x. x.closed) st.heap r s e.1 refl ∙ o)
              sound.open_table;
        named =
            All-map _ _ st.table (λ e m. write-keeps (λ x. x.session_id) st.heap r s e.1 refl ∙ m)
              sound.named;
        allocated = sound.allocated;
        within = sound.within;
        lease_named =
            All-append _ st.leases (l ∷ [])
              (All-map _ _ st.leases
                (λ m n. write-keeps (λ x. x.session_id) st.heap r s m.ref refl ∙ n)
                sound.lease_named)
              (
                write-keeps (λ x. x.session_id) st.heap r s r refl
                    ∙ find-All _ st.table id r found sound.named,
                tt,
              );
        lease_allocated =
            All-append _ st.leases (l ∷ []) sound.lease_allocated
              (find-All _ st.table id r found sound.allocated, tt);
        counted = λ x.
            users_write st.heap r s x _
              (λ e. rw e (
                let c = sound.counted r in
                let more = count_if-append (of_ref r) st.leases (l ∷ []) in ground arith))
              (λ q.
                let c = sound.counted x in
                let more = count_if-append (of_ref x) st.leases (l ∷ []) in ground arith);
        exclusive = λ x.
            let c = sound.exclusive x in
            let more = count_if-append (holds_lock x) st.leases (l ∷ []) in ground arith;
        working =
            All-append _ st.leases (l ∷ [])
              (All-map _ _ st.leases
                (λ m w i. write-keeps (λ x. x.closed) st.heap r s m.ref refl ∙ w i) sound.working)
              (λ i. cc, tt);
      }

  -- The lease that ends is one of the leases.
  pub end_lease-IsSound :
      (st : Store S) (i : ℕ) (l : Lease) (now : ℕ)
      → get_elem? st.leases i ≡ some l
      → IsSound st
      → IsSound (end_lease st i l now)
  unfolding end_lease
  end_lease-IsSound st i l now at_i sound =
      let s : Session S = record (st.heap l.ref) {
        users = (st.heap l.ref).users - 1;
        activity = now;
      } in
      record {
        distinct = sound.distinct;
        open_table =
            All-map _ _ st.table (λ e o. write-keeps (λ x. x.closed) st.heap l.ref s e.1 refl ∙ o)
              sound.open_table;
        named =
            All-map _ _ st.table
              (λ e m. write-keeps (λ x. x.session_id) st.heap l.ref s e.1 refl ∙ m) sound.named;
        allocated = sound.allocated;
        within = sound.within;
        lease_named = All-remove_at _ st.leases i (
            All-map _ _ st.leases
              (λ m n. write-keeps (λ x. x.session_id) st.heap l.ref s m.ref refl ∙ n)
              sound.lease_named);
        lease_allocated = All-remove_at _ st.leases i sound.lease_allocated;
        counted = λ x.
            users_write st.heap l.ref s x _
              (λ e. rw e (
                let c = sound.counted l.ref in
                let less = count_if-remove_at (of_ref l.ref) st.leases i l at_i in ground arith))
              (λ q.
                let c = sound.counted x in
                let less = count_if-remove_at (of_ref x) st.leases i l at_i in ground arith);
        exclusive = λ x.
            let c = sound.exclusive x in
            let less = count_if-remove_at (holds_lock x) st.leases i l at_i in omega arith;
        working = All-remove_at _ st.leases i (
            All-map _ _ st.leases
              (λ m w h. write-keeps (λ x. x.closed) st.heap l.ref s m.ref refl ∙ w h)
              sound.working);
      }

  -- A lease that takes the lock of an open object, which no other has.
  inside-IsSound :
      (st : Store S) (i : ℕ) (l : Lease)
      → get_elem? st.leases i ≡ some l
      → is_locked st l.ref ≡ false
      → (st.heap l.ref).closed ≡ false
      → IsSound st
      → IsSound (set_phase st i l inside)
  inside-IsSound st i l at_i free opened sound = record {
    distinct = sound.distinct;
    open_table = sound.open_table;
    named = sound.named;
    allocated = sound.allocated;
    within = sound.within;
    lease_named =
        All-set _ st.leases i _ sound.lease_named
          (All-get_elem? _ st.leases i l at_i sound.lease_named);
    lease_allocated =
        All-set _ st.leases i _ sound.lease_allocated
          (All-get_elem? _ st.leases i l at_i sound.lease_allocated);
    counted = λ r.
        let c = sound.counted r in
        let same = count_if-set (of_ref r) st.leases i l (record l { phase = inside }) at_i in
        omega arith;
    exclusive = λ r.
        let c = sound.exclusive r in
        let more = count_if-set (holds_lock r) st.leases i l (record l { phase = inside }) at_i in
        elim (Bool-cases (l.ref == r)) [
          | inl q ↦ let same = (==_iff l.ref r).0 q in let free' = rw same at free in ground arith
          | inr q ↦ ground arith
        ];
    working = All-set _ st.leases i _ sound.working (λ _. opened);
  }

  -- A lease that lets the lock go.
  pub leaving-IsSound :
      (st : Store S) (i : ℕ) (l : Lease)
      → get_elem? st.leases i ≡ some l
      → IsSound st
      → IsSound (set_phase st i l leaving)
  leaving-IsSound st i l at_i sound = record {
    distinct = sound.distinct;
    open_table = sound.open_table;
    named = sound.named;
    allocated = sound.allocated;
    within = sound.within;
    lease_named =
        All-set _ st.leases i _ sound.lease_named
          (All-get_elem? _ st.leases i l at_i sound.lease_named);
    lease_allocated =
        All-set _ st.leases i _ sound.lease_allocated
          (All-get_elem? _ st.leases i l at_i sound.lease_allocated);
    counted = λ r.
        let c = sound.counted r in
        let same = count_if-set (of_ref r) st.leases i l (record l { phase = leaving }) at_i in
        omega arith;
    exclusive = λ r.
        let c = sound.exclusive r in
        let less = count_if-set (holds_lock r) st.leases i l (record l { phase = leaving }) at_i in
        ground arith;
    working = All-set _ st.leases i _ sound.working (λ bad. absurd cc);
  }

  pub enter-IsSound :
      (st : Store S) (i : ℕ) (l : Lease)
      → get_elem? st.leases i ≡ some l
      → is_locked st l.ref ≡ false
      → IsSound st
      → IsSound (enter st i l).0
  unfolding enter
  enter-IsSound st i l at_i free sound =
      if_rule {A = Store S × Answer} (λ r. IsSound r.0) (st.heap l.ref).closed
        (λ _. leaving-IsSound st i l at_i sound) (λ q. inside-IsSound st i l at_i free q sound)
