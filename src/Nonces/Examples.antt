-- ===== src/Nonces/Examples.antt =====
-- Histories of claims, and the theorems of the nonce stores at them.
use e_slams.Prelude.{List, [], arith, refl, some, ◌∷◌, ◌≡◌, ◌≢◌}
use e_slams.Nonces.{
  Claim, Store, at_time, capacity_occupied, claim, claim_all, fresh, invalid_lifetime, new_store,
  not_finite, refused, replay,
}
use e_slams.Nonces.Capacity.{IsBounded, claim_all-IsBounded}
use e_slams.Nonces.Claims.{claim_once}
use e_slams.Nonces.Sharing.{answers, sqlite_answers, sqlite_answers-answers}

abbrev small_store : Store
small_store = record { max_entries = 2; entries = [] }

new_store_two : new_store 2 ≡ some small_store
unfolding new_store
new_store_two = refl

abbrev history : List Claim
history =
    record { nonce = "a"; expires = at_time 50; now = at_time 10 }
    ∷ record { nonce = "b"; expires = at_time 20; now = at_time 11 }
    ∷ record { nonce = "c"; expires = at_time 60; now = at_time 12 }
    ∷ record { nonce = "c"; expires = at_time 60; now = not_finite }
    ∷ record { nonce = "c"; expires = at_time 60; now = at_time 30 }
    ∷ record { nonce = "a"; expires = at_time 90; now = at_time 50 }
    ∷ []

history-answers :
    answers small_store history
    ≡ fresh ∷ fresh ∷ refused capacity_occupied ∷ refused invalid_lifetime ∷ fresh ∷ replay ∷ []
unfolding claim
history-answers = refl

claim_all-IsBounded_example : IsBounded (claim_all small_store history)
claim_all-IsBounded_example =
    claim_all-IsBounded small_store history (record { within = omega arith; distinct = tt })

first_fresh : (claim small_store "a" (at_time 50) (at_time 10)).1 ≡ fresh
unfolding claim
first_fresh = refl

claim_once_example :
    (claim
      (claim_all (claim small_store "a" (at_time 50) (at_time 10)).0 history)
      "a"
      (at_time 99)
      (at_time 50)).1
    ≢ fresh
claim_once_example =
    claim_once small_store "a" 50 10 first_fresh history
      (omega arith, (omega arith, (omega arith, (tt, (omega arith, (omega arith, tt))))))
      (at_time 99) (at_time 50) (omega arith)

sqlite_answers-answers_example : sqlite_answers small_store history ≡ answers small_store history
sqlite_answers-answers_example =
    sqlite_answers-answers 10 small_store history
      (omega arith, (omega arith, (omega arith, (omega arith, (omega arith, tt)))))
