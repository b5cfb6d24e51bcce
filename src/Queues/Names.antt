-- ===== src/Queues/Names.antt =====
-- The names that generateQueueNameForResource makes fit a label's value.

use Prim.Native.String.len
use Prim.Native.String.slice
use Prim.Native.String
use Prim.Native.Nat.{Ordering, compare}
use native.Mathlib.Bridge.{IsLe, le_by_compare}
use Prim.Native.Char.{Char, len_utf8}
use text.Mathlib.TextPositions.{len-append}
use kai_resource_management.Prelude.{
  ltb, Bool-cases, length, Result, ok, ℕ, zero, suc, ◌+◌, ◌-◌, ◌≤◌, min, String, ◌≡◌, refl, ap, ◌∙◌,
  inl, inr, arith,
}
use kai_resource_management.Queues.{QueuesConfig, History, Server}
use kai_resource_management.Queues.Specs.{hyphened}
use kai_resource_management.Queues.Steps.{
  max_name_len, is_queue_taken, is_queue_taken_by_other_resource, try_names,
  generate_queue_name_for_resource,
}

fits-le :
    (o : Ordering) (c : Char) (s : String) (k : ℕ)
    → (IsLe o → len_utf8 c ≤ k)
    → String.len s ≤ k - len_utf8 c
    → String.len (String.fits o c s) ≤ k
unfolding IsLe
fits-le Ordering.lt c s k h r = let w = h tt in rw (len.cons c s) (omega arith)
fits-le Ordering.eq c s k h r = let w = h tt in rw (len.cons c s) (omega arith)
fits-le Ordering.gt c s k h r = rw len.nil (omega arith)

-- A part that ends at `k` has at most `k` bytes.
len-slice : (s : String) (k : ℕ) → String.len (String.slice s 0 k) ≤ k
len-slice String.[] k = rw (slice.nil 0 k, len.nil) (omega arith)
len-slice (String.◌∷◌ c s) k = rw (slice.cons-zero c s k) (
    fits-le (compare (len_utf8 c) k) c (String.slice s 0 (k - len_utf8 c)) k
      (le_by_compare (len_utf8 c) k) (len-slice s (k - len_utf8 c)))

len-hyphened : (a b : String) → String.len (hyphened a b) ≡ String.len a + (1 + String.len b)
len-hyphened a b = len-append a (String.◌++◌ "-" b) ∙ ap (λ n. String.len a + n) (len-append "-" b)

module _ (cfg : QueuesConfig) (server : Server) where
  -- rand.String(n) has n bytes.
  abbrev pub DrawsExact : Type 0
  DrawsExact = (draw length : ℕ) → String.len (server.random draw length) ≡ length

  abbrev Fits : Result String → Type 0
  Fits r = (name : String) × (r ≡ ok name) × (String.len name ≤ 63)

  module _ (exact : DrawsExact) where
    suffixed_le :
        (base : String) (trim length : ℕ) (s : History)
        → trim + length ≤ 62
        → String.len (hyphened (String.slice base 0 trim) (server.random s.draws length)) ≤ 63
    suffixed_le base trim length s h =
        let front = len-slice base trim in
        let back = exact s.draws length in
        let whole = len-hyphened (String.slice base 0 trim) (server.random s.draws length) in
        omega arith

    try_names-Fits :
        (project department base uid : String) (trim tries : ℕ) (name : String) (s : History)
        → trim ≤ 58
        → String.len name ≤ 63
        → Fits (try_names cfg server project department base uid trim tries name s).0
    unfolding try_names is_queue_taken_by_other_resource
    try_names-Fits project department base uid trim zero name s h l = (
      hyphened (String.slice base 0 (min trim 42)) (server.random s.draws 20),
      refl,
      suffixed_le base (min trim 42) 20 s (omega arith),
    )
    try_names-Fits project department base uid trim (suc tries) name s h l =
        elim (Bool-cases
          (is_queue_taken cfg server project department uid (server.get_queue s name)).0) [
            | inl e ↦ rw e (
                try_names-Fits project department base uid trim tries
                  (hyphened (String.slice base 0 trim) (server.random s.draws 4))
                  (record s { draws = suc s.draws }) h (suffixed_le base trim 4 s (omega arith)))
            | inr e ↦ rw e (name, refl, l)
          ]

    -- For any suggestion, the name that is made for a resource's queue has at most the 63 bytes of a label's
    -- value, whatever queues exist, when rand.String gives as many bytes as it is asked for; and a name is
    -- always made.
    pub generated-Fits :
        (project department name uid : String) (s : History)
        → (generated : String) × ((generate_queue_name_for_resource cfg server project department
              name uid s).0
            ≡ ok generated)
          × (String.len generated ≤ 63)
    unfolding generate_queue_name_for_resource
    generated-Fits project department name uid s =
        elim (Bool-cases (ltb max_name_len (String.len name))) [
          | inl e ↦ rw e (
              try_names-Fits project department name uid (min (String.len name) max_name_len) 10
                (hyphened (String.slice name 0 58) (server.random s.draws 4))
                (record s { draws = suc s.draws }) (omega arith)
                (suffixed_le name 58 4 s (omega arith)))
          | inr e ↦ rw e (
              try_names-Fits project department name uid (min (String.len name) max_name_len) 10
                name s (omega arith) (ground arith))
        ]
