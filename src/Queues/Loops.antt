-- ===== src/Queues/Loops.antt =====
-- The walk of wouldCloseQueueLoop ends, and it finds a loop exactly when there is one.
use kai_resource_management.Prelude.{
  below, ◌==◌, Bool-cases, eq_of_true, ne_of_false, length, filter, contains, In, here, there,
  In-of_contains, Err, ok, IsSafe, ℕ, zero, suc, ◌≤◌, ◌<◌, String, eq_iff, eq_refl, ◌≡◌, refl, sym,
  ◌∙◌, subst, ◌≢◌, inl, inr, Bool, true, false, not, List, [], ◌∷◌, arith,
}
use kai_resource_management.Objects.{Queue, Answer, reply, fail}
use kai_resource_management.Queues.{QueuesConfig, History, Server}
use kai_resource_management.Queues.Steps.{close_from, would_close_queue_loop}

-- From the queue `a`, `k` parents up, is the queue `b`.
abbrev pub Climbs : (String → Answer Queue) → ℕ → String → String → Type 0
Climbs get zero a b = a ≡ b
Climbs get (suc k) a b =
    (a ≢ "") × ((q : Queue) × (get a ≡ reply q) × Climbs get k q.spec.parent_queue b)

-- How many of the names were not seen yet.
abbrev unseen : List String → List String → ℕ
unseen names seen = length (filter (λ n. not (contains seen n)) names)

unseen_le :
    (names seen : List String) (name : String) → unseen names (name ∷ seen) ≤ unseen names seen
unseen_le [] seen name = omega arith
unseen_le (n ∷ names) seen name = ground (arith, unseen_le names seen name)

unseen_lt :
    (names seen : List String) (name : String)
    → In name names
    → contains seen name ≡ false
    → unseen names (name ∷ seen) < unseen names seen
unseen_lt [] seen name m fresh = elim m [ ]
unseen_lt (n ∷ names) seen name (here e) fresh =
    ground (arith, unseen_le names seen name, eq_refl name, eq_iff name n, eq_iff n name)
unseen_lt (n ∷ names) seen name (there m) fresh =
    ground (arith, unseen_lt names seen name m fresh, eq_iff name n)

unseen_all : (names : List String) → unseen names [] ≤ length names
unseen_all [] = omega arith
unseen_all (n ∷ names) = ground (arith, unseen_all names)

module _ (cfg : QueuesConfig) (server : Server) (get : String → Answer Queue) (queue : String) where
  module _ (names : List String)
      (known : (n : String) (q : Queue) → get n ≡ reply q → In n names) where
    close_from-IsSafe :
        (rounds : ℕ) (seen : List String) (name : String)
        → unseen names seen < rounds
        → IsSafe (close_from cfg server get queue rounds seen name)
    unfolding close_from
    close_from-IsSafe zero seen name h = absurd (omega arith)
    close_from-IsSafe (suc rounds) seen name h = of_answer (get name) refl (λ q e fresh.
        let less = unseen_lt names seen name (known name q e) fresh in
        close_from-IsSafe rounds (name ∷ seen) q.spec.parent_queue (omega arith))
      where
        of_answer :
            (a : Answer Queue)
            → get name ≡ a
            → ((q : Queue)
                → get name ≡ reply q
                → contains seen name ≡ false
                → IsSafe (close_from cfg server get queue rounds (name ∷ seen) q.spec.parent_queue))
            → IsSafe (close_from cfg server get queue (suc rounds) seen name)
        of_answer (reply q) e next = ground (arith, next q e)
        of_answer (fail x) e next = ground arith

  -- Whatever was seen is below the current name, on the way to the queue.
  abbrev Below : List String → String → Type 0
  Below seen name =
      (m : String)
      → In m seen
      → (k : ℕ) → Climbs get k m queue
      → (j : ℕ) × (j < k) × Climbs get j name queue

  up :
      (name : String) (q : Queue)
      → name ≢ queue
      → get name ≡ reply q
      → (k : ℕ) → Climbs get k name queue
      → (j : ℕ) × (j < k) × Climbs get j q.spec.parent_queue queue
  up name q other e zero c = absurd (other c)
  up name q other e (suc k) (ne, (p, e', c)) =
      let same : p ≡ q = cc in
      (k, omega arith, subst (λ x. Climbs get k x.spec.parent_queue queue) same c)

  Below-next :
      (seen : List String) (name : String) (q : Queue)
      → name ≢ queue
      → get name ≡ reply q
      → Below seen name
      → Below (name ∷ seen) q.spec.parent_queue
  Below-next seen name q other e below m (here same) k c =
      up name q other e k (subst (λ x. Climbs get k x queue) (sym same) c)
  Below-next seen name q other e below m (there member) k c =
      let (i, lt, d) = below m member k c in
      let (j, lt', d') = up name q other e i d in (j, omega arith, d')

  -- A name seen before leads nowhere: the way from it would get shorter for ever.
  seen_lem :
      (seen : List String) (name : String)
      → Below seen name
      → In name seen
      → (bound k : ℕ) → k < bound
      → ¬ Climbs get k name queue
  seen_lem seen name below member zero k h c = omega arith
  seen_lem seen name below member (suc bound) k h c =
      let (j, lt, d) = below name member k c in
      seen_lem seen name below member bound j (omega arith) d

  -- What an outcome of the walk from `name` says.
  abbrev pub Tells : String → Bool → Type 0
  Tells name true = (k : ℕ) × Climbs get k name queue
  Tells name false = (k : ℕ) → ¬ Climbs get k name queue

  Tells-empty : queue ≢ "" → Tells "" false
  Tells-empty some_name zero c = some_name (sym c)
  Tells-empty some_name (suc k) c = c.0 refl

  Tells-missing : (name : String) (e : Err) → name ≢ queue → get name ≡ fail e → Tells name false
  Tells-missing name e other failed zero c = other c
  Tells-missing name e other failed (suc k) (ne, (q, found, c)) =
      let clash : fail e ≡ reply q = sym failed ∙ found in cc

  Tells-above :
      (name : String) (q : Queue) (b : Bool)
      → name ≢ ""
      → name ≢ queue
      → get name ≡ reply q
      → Tells q.spec.parent_queue b
      → Tells name b
  Tells-above name q true ne other e (k, c) = (suc k, (ne, (q, e, c)))
  Tells-above name q false ne other e h = λ k c. let (j, lt, d) = up name q other e k c in h j d

  close_from-Tells :
      (rounds : ℕ) (seen : List String) (name : String)
      → queue ≢ ""
      → Below seen name
      → (b : Bool) → close_from cfg server get queue rounds seen name ≡ ok b
      → Tells name b
  unfolding close_from
  close_from-Tells zero seen name some_name below b h = absurd (cc)
  close_from-Tells (suc rounds) seen name some_name below b h = elim (Bool-cases (name == "")) [
    | inl e ↦
        let p : b ≡ false = ground arith in
        subst (Tells name) (sym p)
          (subst (λ n. Tells n false) (sym (eq_of_true e)) (Tells-empty some_name))
    | inr e ↦ elim (Bool-cases (name == queue)) [
      | inl e' ↦ let p : b ≡ true = ground arith in subst (Tells name) (sym p) (0, eq_of_true e')
      | inr e' ↦ elim (Bool-cases (contains seen name)) [
        | inl e'' ↦
            let p : b ≡ false = ground arith in
            subst (Tells name) (sym p) (λ k c.
              seen_lem seen name below (In-of_contains seen name e'') (suc k) k (omega arith) c)
        | inr e'' ↦ of_answer (get name) refl (ne_of_false e) (ne_of_false e') e'' (λ q at.
            close_from-Tells rounds (name ∷ seen) q.spec.parent_queue some_name
              (Below-next seen name q (ne_of_false e') at below))
      ]
    ]
  ]
    where
      of_answer :
          (a : Answer Queue)
          → get name ≡ a
          → name ≢ ""
          → name ≢ queue
          → contains seen name ≡ false
          → ((q : Queue)
              → get name ≡ reply q
              → (b' : Bool)
              → close_from cfg server get queue rounds (name ∷ seen) q.spec.parent_queue ≡ ok b'
              → Tells q.spec.parent_queue b')
          → Tells name b
      of_answer (reply q) at ne other fresh next =
          Tells-above name q b ne other at
            (next q at b (ground (arith, eq_iff name "", eq_iff name queue)))
      of_answer (fail x) at ne other fresh next =
          let p : b ≡ false = ground (arith, eq_iff name "", eq_iff name queue) in
          subst (Tells name) (sym p) (Tells-missing name x other at)

-- The API server's list of names has every queue that it gives.
abbrev pub ListsAll : Server → Type 0
ListsAll server =
    (s : History) (n : String) (q : Queue)
    → server.get_queue_live s n ≡ reply q
    → In n (server.queue_names s)

pub would_close_queue_loop-IsSafe :
    (cfg : QueuesConfig) (server : Server) (queue parent : String) (s : History)
    → ListsAll server
    → IsSafe (would_close_queue_loop cfg server queue parent s).0
unfolding would_close_queue_loop
would_close_queue_loop-IsSafe cfg server queue parent s lists =
    close_from-IsSafe cfg server (server.get_queue_live s) queue (server.queue_names s) (lists s)
      (suc (suc (length (server.queue_names s)))) [] parent
      (let bound = unseen_all (server.queue_names s) in omega arith)

-- The walk up from a parent queue ends without a panic, when there are no more queues than the
-- server's names; and where it comes to an answer for a queue with a name, it is true when the
-- queue is found some number of parents up, and false when no number of parents leads to it.
pub would_close_queue_loop_lem :
    (cfg : QueuesConfig) (server : Server) (queue parent : String) (s : History)
    → ListsAll server
    → queue ≢ ""
    → IsSafe (would_close_queue_loop cfg server queue parent s).0
      × ((b : Bool)
          → (would_close_queue_loop cfg server queue parent s).0 ≡ ok b
          → Tells cfg server (server.get_queue_live s) queue parent b)
unfolding would_close_queue_loop
would_close_queue_loop_lem cfg server queue parent s lists some_name = (
  would_close_queue_loop-IsSafe cfg server queue parent s lists,
  close_from-Tells cfg server (server.get_queue_live s) queue
      (suc (suc (length (server.queue_names s)))) [] parent some_name (λ m member. elim member [ ]),
)
