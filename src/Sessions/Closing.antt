-- ===== src/Sessions/Closing.antt =====
-- `close` of src/eslams/runner_session.py keeps a session store sound.
use e_slams.Prelude.{
  &&_intro, &&_split, All, All-count_if, All-get_elem?, All-map, All-set, All-zip, Bool, Bool-cases,
  String, arith, count_if-le, count_if-set, false, get_elem?, if◌then◌else◌, inl, inr, refl, set,
  some, true, ℕ, ◌&&◌, ◌==◌, ◌∙◌, ◌≡◌,
}
use e_slams.Sessions.{
  Lease, Phase, Session, Store, close_session, closed_session, closing, delete, finds, has_lock,
  holds_lock, inside, leaving, waiting,
}
use e_slams.Sessions.Reaping.{other_entries, write-keeps, write_ne}
use e_slams.Sessions.Table.{All-delete, Distinct-delete, find-delete, length-delete, unlisted}
use e_slams.Sessions.Sound.{IsSound, of_ref, IsWithin-le}

abbrev is_inside : Phase → Bool
is_inside inside = true
is_inside _ = false

abbrev inside_on : ℕ → Lease → Bool
inside_on r l = l.ref == r && is_inside l.phase

inside_locked : (r : ℕ) (x : Lease) → inside_on r x ≡ true → holds_lock r x ≡ true
inside_locked r x h =
    let (here, within) = &&_split (x.ref == r) (is_inside x.phase) h in
    &&_intro _ _ here (locked x.phase within)
  where
    locked : (p : Phase) → is_inside p ≡ true → has_lock p ≡ true
    locked waiting e = e
    locked inside e = refl
    locked closing e = refl
    locked leaving e = absurd cc

not_here : (r : ℕ) (x : Lease) → inside_on r x ≡ false → x.phase ≡ inside → (x.ref == r) ≡ false
not_here r x out within =
    let out' : ((x.ref == r) && is_inside inside) ≡ false = rw within at out in ground arith

module _ {S : Type 0} where
  -- The entries that closing leaves are of other objects.
  closing_table :
      (st : Store S) (l : Lease)
      → (st.heap l.ref).session_id ≡ l.id
      → IsSound st
      → All
          (λ e. (e.1 == l.ref) ≡ false)
          (if finds l.id l.ref st.table then delete l.id st.table else st.table)
  closing_table st l n sound = elim (Bool-cases (finds l.id l.ref st.table)) [
    | inl q ↦ rw q (
        other_entries (delete l.id st.table) st.heap l.id l.ref n
          (find-delete l.id st.table sound.distinct) (All-delete _ l.id st.table sound.named))
    | inr q ↦ rw q (unlisted st.heap l.id l.ref n st.table sound.distinct sound.named q)
  ]

  -- Closing keeps what holds of all entries.
  closing-All {κ} :
      (P : String × ℕ → Type κ) (st : Store S) (l : Lease)
      → All P st.table
      → All P (if finds l.id l.ref st.table then delete l.id st.table else st.table)
  closing-All P st l h = elim (Bool-cases (finds l.id l.ref st.table)) [
    | inl q ↦ rw q (All-delete P l.id st.table h)
    | inr q ↦ rw q h
  ]

  -- No call but the one that closes is inside.
  lone :
      (st : Store S) (i : ℕ) (l : Lease)
      → get_elem? st.leases i ≡ some l
      → l.phase ≡ inside
      → IsSound st
      → All (λ x. inside_on l.ref x ≡ false) (set st.leases i (record l { phase = closing }))
  lone st i l at_i working sound =
      let fewer =
        count_if-le (inside_on l.ref) (holds_lock l.ref) st.leases
          (λ x h. inside_locked l.ref x h) in
      let most = sound.exclusive l.ref in
      let gone = count_if-set (inside_on l.ref) st.leases i l (record l { phase = closing }) at_i in
      let here : inside_on l.ref l ≡ true = rw working (ground arith) in
      All-count_if _ _ (ground arith)

  pub close_session-IsSound :
      (st : Store S) (i : ℕ) (l : Lease)
      → get_elem? st.leases i ≡ some l
      → l.phase ≡ inside
      → IsSound st
      → IsSound (close_session st i l)
  unfolding close_session
  close_session-IsSound st i l at_i working sound =
      let s : Session S = closed_session (st.heap l.ref) in
      let m : Lease = record l { phase = closing } in
      let n = All-get_elem? _ st.leases i l at_i sound.lease_named in
      let others = closing_table st l n sound in
      let found = finds l.id l.ref st.table in
      record {
        distinct = elim (Bool-cases found) [
          | inl q ↦ rw q (Distinct-delete l.id st.table sound.distinct)
          | inr q ↦ rw q sound.distinct
        ];
        open_table =
            All-zip _ _ _ _ (λ e apart o. write_ne (λ x. x.closed) st.heap l.ref s e.1 apart ∙ o)
              others (closing-All _ st l sound.open_table);
        named =
            All-map _ _ _ (λ e k. write-keeps (λ x. x.session_id) st.heap l.ref s e.1 refl ∙ k)
              (closing-All _ st l sound.named);
        allocated = closing-All _ st l sound.allocated;
        within = elim (Bool-cases found) [
          | inl q ↦
              rw q (IsWithin-le st.max_sessions _ _ (length-delete l.id st.table) sound.within)
          | inr q ↦ rw q sound.within
        ];
        lease_named =
            All-map _ _ (set st.leases i m)
              (λ x k. write-keeps (λ x. x.session_id) st.heap l.ref s x.ref refl ∙ k)
              (All-set _ st.leases i m sound.lease_named n);
        lease_allocated =
            All-set _ st.leases i m sound.lease_allocated
              (All-get_elem? _ st.leases i l at_i sound.lease_allocated);
        counted = λ r.
            let c = sound.counted r in
            let same = count_if-set (of_ref r) st.leases i l m at_i in
            write-keeps (λ x. x.users) st.heap l.ref s r refl ∙ omega arith;
        exclusive = λ r.
            let c = sound.exclusive r in
            let same = count_if-set (holds_lock r) st.leases i l m at_i in ground arith;
        working =
            All-zip _ _ _ (set st.leases i m)
              (λ x out w now_inside.
                write_ne (λ x. x.closed) st.heap l.ref s x.ref (not_here l.ref x out now_inside)
                ∙ w now_inside)
              (lone st i l at_i working sound)
              (All-set _ st.leases i m sound.working (λ bad. absurd cc));
      }
