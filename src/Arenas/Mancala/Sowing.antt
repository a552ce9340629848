-- ===== src/Arenas/Mancala/Sowing.antt =====
-- Where sowing ends: the thirteen slots that a seat sows into form a ring.
use e_slams.Prelude.{
  ap, arith, get_or, if◌then◌else◌, refl, suc, true, zero, ℕ, ◌%◌, ◌+◌, ◌<◌, ◌==◌, ◌∙◌, ◌≡◌,
}
use e_slams.Arena.{Player, at_seat, other, player_1, player_2, same_player}
use e_slams.Arenas.Mancala.{
  Board, Position, Slot, at_slot, capture_at, drop_in, finish_sowing, lift_pit, move, next_slot,
  pit, sow, store,
}

-- The place of a slot on the ring of the seat that sows: its pits, its store, the other's pits.
abbrev pub ring : Player → Player → Slot → ℕ
ring active owner store = 6
ring active owner (pit i) = if same_player owner active then i else 7 + i

-- A slot that is sown into: a pit, or the sower's own store.
abbrev pub OnRing : Player → Player → Slot → Type 0
OnRing active owner store = owner ≡ active
OnRing active owner (pit i) = i < 6

next_slot-ring :
    (active owner : Player) (slot : Slot)
    → OnRing active owner slot
    → OnRing active (next_slot owner slot active).owner (next_slot owner slot active).slot
      × (ring active (next_slot owner slot active).owner (next_slot owner slot active).slot
          ≡ (ring active owner slot + 1) % 13)
unfolding next_slot
next_slot-ring player_1 player_1 store h = (omega arith, refl)
next_slot-ring player_2 player_2 store h = (omega arith, refl)
next_slot-ring player_1 player_2 store h = cc
next_slot-ring player_2 player_1 store h = cc
next_slot-ring player_1 player_1 (pit i) h = ground arith
next_slot-ring player_2 player_2 (pit i) h = ground arith
next_slot-ring player_1 player_2 (pit i) h = ground arith
next_slot-ring player_2 player_1 (pit i) h = ground arith

ring-lt :
    (active owner : Player) (slot : Slot) → OnRing active owner slot → ring active owner slot < 13
ring-lt active owner store h = omega arith
ring-lt active owner (pit i) h = ground arith

-- Sowing n stones moves n places round the ring, and never touches the other seat's store.
pub record Turned (n : ℕ) (active : Player) (p : Position) (b : Board) (r : Position × Board)
    : Type 0 where
  on_ring : OnRing active r.0.owner r.0.slot
  place : ring active r.0.owner r.0.slot ≡ (ring active p.owner p.slot + n) % 13
  kept : at_seat r.1.stores (other active) ≡ at_seat b.stores (other active)

drop_in-kept :
    (active owner : Player) (slot : Slot) (b : Board)
    → OnRing active owner slot
    → at_seat (drop_in owner slot b).stores (other active) ≡ at_seat b.stores (other active)
unfolding drop_in
drop_in-kept player_1 player_1 store b h = refl
drop_in-kept player_2 player_2 store b h = refl
drop_in-kept player_1 player_2 store b h = cc
drop_in-kept player_2 player_1 store b h = cc
drop_in-kept active owner (pit i) b h = refl

sow-Turned :
    (n : ℕ) (active : Player) (p : Position) (b : Board)
    → OnRing active p.owner p.slot
    → Turned n active p b (sow n active p b)
unfolding sow
sow-Turned zero active p b h = record {
  on_ring = h;
  place = omega (arith, ring-lt active p.owner p.slot h);
  kept = refl;
}
sow-Turned (suc n) active p b h =
    let (h', e) = next_slot-ring active p.owner p.slot h in
    let q = next_slot p.owner p.slot active in
    let s = sow-Turned n active q (drop_in q.owner q.slot b) h' in
    record {
      on_ring = s.on_ring;
      place = omega (arith, s.place, e);
      kept = s.kept ∙ drop_in-kept active q.owner q.slot b h';
    }

same_player_self : (p : Player) → same_player p p ≡ true
same_player_self player_1 = refl
same_player_self player_2 = refl

-- The seat after a move, read off the place where sowing ended.
finish_sowing-seat :
    (player : Player) (p : Position) (b : Board)
    → OnRing player p.owner p.slot
    → (finish_sowing player (p, b)).0
      ≡ (if ring player p.owner p.slot == 6 then player else other player)
finish_sowing-seat player p b h = seat player p.owner p.slot h
  where
    seat :
        (player owner : Player) (slot : Slot)
        → OnRing player owner slot
        → (finish_sowing player (at_slot owner slot, b)).0
          ≡ (if ring player owner slot == 6 then player else other player)
    seat player_1 player_1 store h = unfold finish_sowing in refl
    seat player_2 player_2 store h = unfold finish_sowing in refl
    seat player_1 player_2 store h = cc
    seat player_2 player_1 store h = cc
    seat player_1 player_1 (pit i) h = unfold finish_sowing in ground arith
    seat player_2 player_2 (pit i) h = unfold finish_sowing in ground arith
    seat player_1 player_2 (pit i) h = unfold finish_sowing in ground arith
    seat player_2 player_1 (pit i) h = unfold finish_sowing in ground arith

finish_sowing-kept :
    (player : Player) (p : Position) (b : Board)
    → at_seat (finish_sowing player (p, b)).1.stores (other player)
      ≡ at_seat b.stores (other player)
unfolding finish_sowing capture_at
finish_sowing-kept player_1 p b = ground arith
finish_sowing-kept player_2 p b = ground arith

lift_pit-kept : (b : Board) (player : Player) (i : ℕ) → (lift_pit b player i).stores ≡ b.stores
unfolding lift_pit
lift_pit-kept b player_1 i = refl
lift_pit-kept b player_2 i = refl

-- A move of a pit with n stones earns another turn exactly when the last stone falls into the
-- mover's store, which is when i + n is 6 round the ring of 13 slots; and it leaves the other
-- seat's store alone.
pub move_seat :
    (b : Board) (player : Player) (i : ℕ)
    → i < 6
    → ((move b player i).0
        ≡ (if (i + get_or (at_seat b.pits player) i 0) % 13 == 6 then player else other player))
      × (at_seat (move b player i).1.stores (other player) ≡ at_seat b.stores (other player))
unfolding move
move_seat b player i h =
    let n = get_or (at_seat b.pits player) i 0 in
    let r = sow n player (at_slot player (pit i)) (lift_pit b player i) in
    let t = sow-Turned n player (at_slot player (pit i)) (lift_pit b player i) h in
    let here : ring player player (pit i) ≡ i = rw (same_player_self player) in
    (
      finish_sowing-seat player r.0 r.1 t.on_ring
          ∙ ap (λ k. if k == 6 then player else other player)
              (t.place ∙ ap (λ k. (k + n) % 13) here),
      finish_sowing-kept player r.0 r.1
          ∙ (t.kept ∙ ap (λ d. at_seat d (other player)) (lift_pit-kept b player i)),
    )
