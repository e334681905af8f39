-- ===== src/StateStore/Tests.antt =====
-- A queue of two on one thread, a lock that is asked for twice, and a pair with a ttl.
use paraclaw.Prelude.{
  ◌≡◌, refl, Text, lit, Option, none, some, List, [], ◌∷◌, Bool, true, false, arith,
}
use paraclaw.StateStore.{
  Store, LockRow, acquire_lock, get, set, set_if_not_exists, get_list, append_to_list, subscribe,
  unsubscribe, is_subscribed,
}
use paraclaw.StateStore.Calls.{Op, put, pull, tidy, Reply, depth, entry, tidied, run, model_run}
use paraclaw.StateStore.Window.{over}
use paraclaw.StateStore.Queue.{run_refines}
use paraclaw.StateStore.Locks.{acquire, release, lock_run, acquire_lock_excludes}
use paraclaw.StateStore.KeyValue.{get-set}

abbrev ops : List Op
ops =
    put 1 (lit "t") (lit "a") 2
    ∷ put 2 (lit "t") (lit "b") 2
    ∷ put 3 (lit "t") (lit "c") 2
    ∷ put 3 (lit "u") (lit "d") 2
    ∷ tidy 9
    ∷ pull (lit "t")
    ∷ pull (lit "t")
    ∷ pull (lit "t")
    ∷ []

abbrev replies : List Reply
replies =
    depth 1
    ∷ depth 2
    ∷ depth 2
    ∷ depth 1
    ∷ tidied
    ∷ entry (some (lit "b"))
    ∷ entry (some (lit "c"))
    ∷ entry none
    ∷ []

model_replies : model_run ops (λ t. []) ≡ replies
unfolding model_run paraclaw.Prelude.text_eq
model_replies = refl

run_refines_example : run ops [] ≡ some (model_run ops (λ t. []))
run_refines_example = run_refines ops (λ t. []) [] (λ t. (0, over))

abbrev held : LockRow
held = record { thread_id = lit "t"; token = lit "k"; expires_at = 15 }

acquire_lock_excludes_example :
    (acquire_lock 12 (lit "n") (lit "t") 10 (
      lock_run
        (acquire 11 (lit "m") (lit "t") 10 ∷ release (record held { token = lit "m" }) ∷ [])
        (acquire_lock 5 (lit "k") (lit "t") 10 []).1)).0
    ≡ none
unfolding acquire_lock paraclaw.Prelude.text_eq
acquire_lock_excludes_example =
    acquire_lock_excludes 5 (lit "k") 10 [] held
      (acquire 11 (lit "m") (lit "t") 10 ∷ release (record held { token = lit "m" }) ∷ []) 12
      (lit "n") 10 refl (omega arith, (refl, tt)) (omega arith)

abbrev empty : Store
empty = record { kv = []; subscriptions = []; locks = []; lists = [] }

get-set_example :
    ((get 20 (lit "a") (set 5 (lit "a") (lit "1") (some 10) empty)).0 ≡ none)
    × ((get 20 (lit "b") (set 5 (lit "a") (lit "1") (some 10) empty)).0
        ≡ (get 20 (lit "b") empty).0)
unfolding paraclaw.Prelude.text_eq
get-set_example = get-set 5 20 (lit "a") (lit "b") (lit "1") (some 10) empty refl

-- A pair is taken until it has expired.
set_twice :
    let s = set 5 (lit "a") (lit "1") (some 10) empty in
    ((set_if_not_exists 15 (lit "a") (lit "2") none s).0 ≡ false)
    × ((set_if_not_exists 16 (lit "a") (lit "2") none s).0 ≡ true)
unfolding set_if_not_exists set paraclaw.Prelude.text_eq
set_twice = (refl, refl)

-- A list without its oldest entry.
trimmed :
    elim (append_to_list 1 (lit "l") (lit "x") (some 1) none []) [
      | none ↦ []
      | some rows ↦ elim (append_to_list 2 (lit "l") (lit "y") (some 1) none rows) [
        | none ↦ []
        | some after ↦ get_list 3 (lit "l") after
      ]
    ]
    ≡ lit "y" ∷ []
unfolding append_to_list get_list paraclaw.Prelude.text_eq
trimmed = refl

subscribed_twice :
    is_subscribed
      (lit "t")
      (unsubscribe (lit "t") (subscribe (lit "t") (subscribe (lit "t") empty)))
    ≡ false
unfolding paraclaw.Prelude.text_eq
subscribed_twice = refl
