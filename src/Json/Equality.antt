-- ===== src/Json/Equality.antt =====
-- What `same_json_action` decides.
use e_slams.Prelude.{◌≡◌, refl, true, arith, eq_iff, ap, ap₂, &&_split, &&_intro}
use e_slams.Prelude.Int.{int_eq_iff}
use e_slams.Json.{
  Json, null, bool, int, float, str, arr, obj, Items, nil, cons, Float, nan, infinite, finite,
  same_float, same_json_action, same_items,
}

-- Values with no dict in them: those that the arenas list as legal actions.
unfoldable mutual
  pub IsPlain : Json → Type 0
  IsPlain (obj fs) = ⊥
  IsPlain (arr xs) = ArePlain xs
  IsPlain _ = Unit

  pub ArePlain : Items → Type 0
  ArePlain nil = Unit
  ArePlain (cons x xs) = IsPlain x × ArePlain xs

same_float_eq : (a b : Float) → same_float a b ≡ true → a ≡ b
unfolding same_float
same_float_eq (finite m e) (finite n f) h = ground (arith, int_eq_iff m n, int_eq_iff e f)
same_float_eq (finite m e) nan h = ground arith
same_float_eq (finite m e) (infinite s) h = ground arith
same_float_eq nan b h = ground arith
same_float_eq (infinite s) b h = ground arith

mutual
  unfolding same_json_action IsPlain

  same_plain : (a b : Json) → IsPlain b → same_json_action a b ≡ true → a ≡ b
  same_plain null null p h = refl
  same_plain (bool a) (bool b) p h = ground arith
  same_plain (int a) (int b) p h = ap int ((int_eq_iff a b).0 h)
  same_plain (float a) (float b) p h = ap float (same_float_eq a b h)
  same_plain (str a) (str b) p h = ap str ((eq_iff a b).0 h)
  same_plain (arr xs) (arr ys) p h = ap arr (same_plain_items xs ys p h)
  same_plain (obj fs) (obj gs) p h = absurd p
  same_plain _ _ p h = ground arith

  same_plain_items : (xs ys : Items) → ArePlain ys → same_items xs ys ≡ true → xs ≡ ys
  same_plain_items nil nil p h = refl
  same_plain_items (cons x xs) (cons y ys) p h =
      let (hx, hxs) = &&_split (same_json_action x y) (same_items xs ys) h in
      ap₂ cons (same_plain x y p.0 hx) (same_plain_items xs ys p.1 hxs)
  same_plain_items _ _ p h = ground arith

-- A value that matches a candidate with no dict in it is that candidate.
pub same_json_action-eq : (a b : Json) → IsPlain b → same_json_action a b ≡ true → a ≡ b
same_json_action-eq a b p h = same_plain a b p h

-- JSON values that compare equal to themselves: no NaN and no infinity in them.
unfoldable mutual
  pub IsFiniteJson : Json → Type 0
  IsFiniteJson (float (finite m e)) = Unit
  IsFiniteJson (float f) = ⊥
  IsFiniteJson (arr xs) = AreFinite xs
  IsFiniteJson (obj fs) = ⊥
  IsFiniteJson _ = Unit

  pub AreFinite : Items → Type 0
  AreFinite nil = Unit
  AreFinite (cons x xs) = IsFiniteJson x × AreFinite xs

mutual
  unfolding same_json_action same_float IsFiniteJson

  same_self : (a : Json) → IsFiniteJson a → same_json_action a a ≡ true
  same_self null p = refl
  same_self (bool a) p = ground arith
  same_self (int a) p = (int_eq_iff a a).1 refl
  same_self (float (finite m e)) p =
      &&_intro _ _ ((int_eq_iff m m).1 refl) ((int_eq_iff e e).1 refl)
  same_self (float nan) p = absurd p
  same_self (float (infinite s)) p = absurd p
  same_self (str a) p = (eq_iff a a).1 refl
  same_self (arr xs) p = same_self_items xs p
  same_self (obj fs) p = absurd p

  same_self_items : (xs : Items) → AreFinite xs → same_items xs xs ≡ true
  same_self_items nil p = refl
  same_self_items (cons x xs) p = &&_intro _ _ (same_self x p.0) (same_self_items xs p.1)

pub same_json_action_self : (a : Json) → IsFiniteJson a → same_json_action a a ≡ true
same_json_action_self a p = same_self a p
