-- ===== src/Queues/Allowed.antt =====
-- What the handlers may send: changes of queues that are the reconciled owner's, and no panic.
use kai_resource_management.Prelude.{
  if◌then◌else◌, length, All, Err, Result, ok, err, panic, OnOk-of, IsSafe, ℕ, String, ◌≡◌, refl,
  Bool, true, false, not, List, [], ◌∷◌, arith,
}
use kai_resource_management.Objects.{Queue, equals, Answer, reply, fail, lift}
use kai_resource_management.Effects.{◌>>=◌, give, caught, attempt}
use kai_resource_management.Effects.Rules.{Ends, Runs, Runs->>=, Runs-give, Runs-if}
use kai_resource_management.Queues.{
  QueuesConfig, Change, create_queue, update_queue, delete_queue, loop_event, History, Server, Step,
  ask, try_ask, send_change, draw_text,
}
use kai_resource_management.Queues.Specs.{
  is_owned_by_uid, is_owned_by_kind, is_external_queue, update_existing_queue_with_expected_values,
}
use kai_resource_management.Queues.Steps.{
  unless_exists, create, update_existing_queue, remove_queue, removable, with_error, remove_round,
  remove_each, remove_listed, delete_unnecessary_queues,
}

-- A queue that the owner has under an owner reference of its kind.
abbrev pub IsOwned : (uid kind : String) → Queue → Type 0
IsOwned uid kind queue =
    (is_owned_by_uid queue.owner_references uid ≡ true)
    × (is_owned_by_kind queue.owner_references kind ≡ true)

-- A change by the owner: it creates queues of its own, it updates queues that are not external, in
-- place and to its own, and it deletes queues that are of its kind and not external.
abbrev pub IsOurs : QueuesConfig → (uid kind : String) → Change → Type 0
IsOurs cfg uid kind (create_queue queue) = IsOwned uid kind queue
IsOurs cfg uid kind (update_queue existing updated) =
    (is_external_queue cfg existing uid ≡ false)
    × (updated.name ≡ existing.name)
    × IsOwned uid kind updated
IsOurs cfg uid kind (delete_queue queue) =
    (is_external_queue cfg queue uid ≡ false)
    × (is_owned_by_kind queue.owner_references kind ≡ true)
IsOurs cfg uid kind (loop_event queue parent) = Unit

abbrev pub AllOurs : QueuesConfig → (uid kind : String) → History → Type 0
AllOurs cfg uid kind s = All (IsOurs cfg uid kind) s.changes

module _ (cfg : QueuesConfig) (server : Server) (uid kind : String) where
  abbrev pub Keeps : {A : Type 0} → Step A → Type 0
  Keeps m = Runs (AllOurs cfg uid kind) (λ _. Unit) m

  pub lift-IsSafe : {A : Type 0} (answer : Answer A) → IsSafe (lift answer)
  lift-IsSafe (reply a) = tt
  lift-IsSafe (fail e) = tt

  pub give-Keeps : {A : Type 0} (r : Result A) → IsSafe r → Keeps (give r)
  give-Keeps r safe = Runs-give (AllOurs cfg uid kind) (λ _. Unit) r safe (OnOk-of _ r (λ _ _. tt))

  pub then-Keeps :
      {A B : Type 0} (m : Step A) (f : A → Step B)
      → Keeps m
      → ((a : A) → Keeps (f a))
      → Keeps (m >>= f)
  then-Keeps m f h k = Runs->>= (AllOurs cfg uid kind) (λ _. Unit) (λ _. Unit) m f h (λ a _. k a)

  pub if-Keeps :
      {A : Type 0} (b : Bool) (m n : Step A) → Keeps m → Keeps n → Keeps (if b then m else n)
  if-Keeps b m n h k = Runs-if (AllOurs cfg uid kind) (λ _. Unit) b m n (λ _. h) (λ _. k)

  pub ask-Keeps : {A : Type 0} (question : History → Answer A) → Keeps (ask question)
  ask-Keeps question s i = give-Keeps (lift (question s)) (lift-IsSafe (question s)) s i

  pub try_ask-Keeps : {A : Type 0} (question : History → Answer A) → Keeps (try_ask question)
  try_ask-Keeps question s i = (i, tt)

  pub draw_text-Keeps : (length : ℕ) → Keeps (draw_text server length)
  draw_text-Keeps length s i = (i, tt)

  pub send_change-Keeps :
      (change : Change) → IsOurs cfg uid kind change → Keeps (send_change server change)
  send_change-Keeps change h s i = of_answer (server.perform s change)
    where
      of_answer :
          (answer : Answer (Unit {0}))
          → Ends
              (AllOurs cfg uid kind)
              (λ _. Unit)
              (lift answer, record s { changes = change ∷ s.changes })
      of_answer (reply u) = ((h, i), tt)
      of_answer (fail e) = (h, i)

  -- What comes after a caught call sees its outcome, which is no panic.
  pub caught-Keeps :
      {A B : Type 0} (m : Step A) (f : Result A → Step B)
      → Keeps m
      → ((r : Result A) → IsSafe r → Keeps (f r))
      → Keeps (attempt m >>= f)
  caught-Keeps {A} m f h k =
      Runs->>= (AllOurs cfg uid kind) (λ r. IsSafe r) (λ _. Unit) (attempt m) f
        (λ s i. of_end (m s) (h s i)) k
    where
      of_end :
          (r : Result A × History)
          → Ends (AllOurs cfg uid kind) (λ _. Unit) r
          → Ends (AllOurs cfg uid kind) (λ x. IsSafe x) (caught r.0, r.1)
      of_end (ok a, s) k = k
      of_end (err e, s) k = (k, tt)
      of_end (panic, s) k = k

  unless_exists-IsSafe : (r : Result (Unit {0})) → IsSafe r → IsSafe (unless_exists cfg server r)
  unless_exists-IsSafe (ok u) h = tt
  unless_exists-IsSafe (err e) h = ground arith
  unless_exists-IsSafe panic h = h

  pub create-Keeps : (queue : Queue) → IsOwned uid kind queue → Keeps (create cfg server queue)
  unfolding create
  create-Keeps queue h =
      caught-Keeps (send_change server (create_queue queue)) _
        (send_change-Keeps (create_queue queue) h)
        (λ r safe. give-Keeps (unless_exists cfg server r) (unless_exists-IsSafe r safe))

  pub update-Keeps :
      (expected existing : Queue)
      → IsOwned uid kind expected
      → Keeps (update_existing_queue cfg server expected existing uid)
  unfolding update_existing_queue
  update-Keeps expected existing h =
      let change =
        update_queue existing (update_existing_queue_with_expected_values expected existing) in
      Runs-if (AllOurs cfg uid kind) (λ _. Unit) (is_external_queue cfg existing uid) (give (ok tt))
        (send_change server change) (λ _. give-Keeps (ok tt) tt)
        (λ e. send_change-Keeps change (e, refl, h))

  pub remove-Keeps :
      (queue : Queue)
      → is_owned_by_kind queue.owner_references kind ≡ true
      → Keeps (remove_queue cfg server queue uid)
  unfolding remove_queue
  remove-Keeps queue h =
      Runs-if (AllOurs cfg uid kind) (λ _. Unit) (is_external_queue cfg queue uid) (give (ok tt))
        (send_change server (delete_queue queue)) (λ _. give-Keeps (ok tt) tt)
        (λ e. send_change-Keeps (delete_queue queue) (e, h))

  remove_round-Keeps :
      (reconciled : List String) (queue : Queue) (rest : Step (List Err))
      → Keeps rest
      → Keeps (remove_round cfg server reconciled uid kind queue rest)
  remove_round-Keeps reconciled queue rest h =
      Runs-if (AllOurs cfg uid kind) (λ _. Unit) (not (removable cfg server reconciled kind queue))
        rest _ (λ _. h)
        (λ e.
          caught-Keeps (remove_queue cfg server queue uid) _ (remove-Keeps queue (ground arith))
            (λ removed _.
              then-Keeps rest _ h
                (λ errors. give-Keeps (ok (with_error cfg server removed errors)) tt)))

  remove_each-Keeps :
      (reconciled : List String) (queues : List Queue)
      → Keeps (remove_each cfg server reconciled uid kind queues)
  unfolding remove_each
  remove_each-Keeps reconciled [] = give-Keeps {A = List Err} (ok []) tt
  remove_each-Keeps reconciled (queue ∷ queues) =
      remove_round-Keeps reconciled queue (remove_each cfg server reconciled uid kind queues)
        (remove_each-Keeps reconciled queues)

  pub delete_unnecessary-Keeps :
      (reconciled : List String) (key value : String)
      → Keeps (delete_unnecessary_queues cfg server reconciled uid key value kind)
  unfolding delete_unnecessary_queues
  delete_unnecessary-Keeps reconciled key value =
      let listing : History → Answer (List Queue) =
        λ s. server.list_queues s (equals key value ∷ []) in
      then-Keeps (try_ask listing) (λ answer. remove_listed cfg server reconciled uid kind answer)
        (try_ask-Keeps listing) listed-Keeps
    where
      listed-Keeps :
          (answer : Answer (List Queue))
          → Keeps (remove_listed cfg server reconciled uid kind answer)
      listed-Keeps (reply queues) = remove_each-Keeps reconciled queues
      listed-Keeps (fail e) = give-Keeps (ok (e ∷ [])) tt
