-- ===== src/Router/Replica/Turns.antt =====
-- RoundRobin gives every item its turn.
use vearch.Prelude.{
  ℕ, zero, suc, ◌+◌, ◌-◌, ◌%◌, ◌^◌, ◌<◌, List, [], ◌∷◌, Option, none, some, if◌then◌else◌, ◌==◌,
  length, get_elem?, ◌≡◌, refl, arith, ◌∙◌,
}
use vearch.Router.Replica.{Counters, counter_of, set_counter, step_counter, next}

counter_of-set_counter :
    (j k n : ℕ) (cs : Counters)
    → counter_of j (set_counter k n cs) ≡ (if k == j then some n else counter_of j cs)
unfolding counter_of set_counter
counter_of-set_counter j k n [] = refl
counter_of-set_counter j k n ((i, m) ∷ cs) = ground (arith, counter_of-set_counter j k n cs)

-- The results of n calls of Next with one list, and the counters after them.
pub calls : ℕ → List ℕ → ℕ → Counters → List (Option ℕ) × Counters
calls k v zero cs = ([], cs)
calls k v (suc n) cs =
    let (r, cs') = next k v cs in let (rs, cs'') = calls k v n cs' in (r ∷ rs, cs'')

-- The items from turn i on, n of them, round and round.
abbrev pub turns : List ℕ → ℕ → ℕ → List (Option ℕ)
turns v i zero = []
turns v i (suc n) = get_elem? v (i % length v) ∷ turns v (i + 1) n

-- The counter of a key says how many calls there were; a key without one had none.
abbrev pub Called : ℕ → ℕ → Counters → Type 0
Called k zero cs = counter_of k cs ≡ none
Called k (suc i) cs = counter_of k cs ≡ some (suc i)

next-turn :
    (k x i : ℕ) (xs : List ℕ) (cs : Counters)
    → i + 1 < 2 ^ 64
    → Called k i cs
    → ((next k (x ∷ xs) cs).0 ≡ get_elem? (x ∷ xs) (i % length (x ∷ xs)))
      × Called k (suc i) (next k (x ∷ xs) cs).1
unfolding next
next-turn k x zero xs cs l h = (
  rw (h, step_counter) (ground arith),
  rw (h, step_counter) (counter_of-set_counter k k 1 cs ∙ ground arith),
)
next-turn k x (suc i) xs cs l h =
    let n : (suc i + 1) % 2 ^ 64 ≡ suc (suc i) = omega arith in
    let m : (suc (suc i) + 2 ^ 64 - 1) % 2 ^ 64 ≡ suc i = omega arith in
    (
      rw (h, step_counter, n, m) refl,
      rw (h, step_counter, n) (counter_of-set_counter k k (suc (suc i)) cs ∙ ground arith),
    )

-- From a key that was called i times, n calls of Next with one list that is not empty return the
-- items of the list in turn, from the one at i modulo its length on, as long as the calls in all are
-- fewer than 2^64; no call is out of range.
pub calls-turns :
    (k x i n : ℕ) (xs : List ℕ) (cs : Counters)
    → i + n < 2 ^ 64
    → Called k i cs
    → ((calls k (x ∷ xs) n cs).0 ≡ turns (x ∷ xs) i n) × Called k (i + n) (calls k (x ∷ xs) n cs).1
unfolding calls
calls-turns k x i zero xs cs l h = (refl, let z : i + 0 ≡ i = omega arith in rw z h)
calls-turns k x i (suc n) xs cs l h =
    let (r, h') = next-turn k x i xs cs (omega arith) h in
    let (rs, h'') = calls-turns k x (suc i) n xs (next k (x ∷ xs) cs).1 (omega arith) h' in
    let z : i + suc n ≡ suc i + n = omega arith in
    let y : i + 1 ≡ suc i = omega arith in (rw (r, rs, y) refl, rw z h'')
