-- ===== src/Raft/Job.antt =====
-- The jobs of a store that flush the engine and cut the log of raft:
-- internal/ps/storage/raftstore/store_raft_job.go.
use vearch.Prelude.{
  ℕ, ◌+◌, ◌^◌, ◌<◌, List, [], ◌∷◌, true, ◌&&◌, Option, none, some, Result, ok, err, if◌then◌else◌,
  has_num, ◌==◌, All, lt64, sub64, arith, ◌≡◌, refl,
}

-- What one round of the truncate job does, from the answers of the engine and of raft: the numbers are int64.
-- `pending` counts the replicas that wait for a snapshot.
unfoldable pub truncate_round : ℕ → Result ℕ → ℕ → ℕ → Option ℕ
truncate_round count (err e) pending app_truncate_index = none
truncate_round count (ok flush_sn) pending app_truncate_index =
    if lt64 0 (sub64 (sub64 flush_sn app_truncate_index) count) && (pending == 0)
    then some (sub64 flush_sn count)
    else none

-- The indexes at which the rounds cut the log, from appTruncateIndex on, each round with what the engine answers and
-- the replicas that wait
unfoldable pub cut_at : Option ℕ → List ℕ → (ℕ → List ℕ) → List ℕ
cut_at none same later = same
cut_at (some index) same later = index ∷ later index

unfoldable pub truncate_rounds : ℕ → List (Result ℕ × ℕ) → ℕ → List ℕ
unfolding cut_at
truncate_rounds count [] app_truncate_index = []
truncate_rounds count ((answer, pending) ∷ rounds) app_truncate_index =
    cut_at (truncate_round count answer pending app_truncate_index)
      (truncate_rounds count rounds app_truncate_index) (truncate_rounds count rounds)

-- One cut: forward, and the last `count` entries before the flushed number stay.
truncate_round-some :
    (count flush_sn pending app : ℕ) (index : ℕ)
    → count < 2 ^ 61
    → flush_sn < 2 ^ 61
    → app < 2 ^ 61
    → truncate_round count (ok flush_sn) pending app ≡ some index
    → (app < index) × (index + count ≡ flush_sn) × (pending ≡ 0)
unfolding truncate_round
truncate_round-some count flush_sn pending app index c f a h = ground arith

-- Each number is greater than the one before it.
abbrev pub Increases : ℕ → List ℕ → Type 0
Increases last [] = Unit
Increases last (x ∷ xs) = (last < x) × Increases x xs

-- The numbers that the engine answered with
abbrev pub flushed : List (Result ℕ × ℕ) → List ℕ
flushed [] = []
flushed ((err e, pending) ∷ rounds) = flushed rounds
flushed ((ok flush_sn, pending) ∷ rounds) = flush_sn ∷ flushed rounds

abbrev pub CutsSafely : ℕ → List (Result ℕ × ℕ) → ℕ → List ℕ → Type 0
CutsSafely count rounds last cuts =
    Increases last cuts × All (λ index. has_num (index + count) (flushed rounds) ≡ true) cuts

seen_later :
    (count flush_sn : ℕ) (all cuts : List ℕ)
    → All (λ index. has_num (index + count) all ≡ true) cuts
    → All (λ index. has_num (index + count) (flush_sn ∷ all) ≡ true) cuts
seen_later count flush_sn all [] h = tt
seen_later count flush_sn all (x ∷ cuts) h =
    let f = h.0 in (ground arith, seen_later count flush_sn all cuts h.1)

cut_at-CutsSafely :
    (count flush_sn : ℕ) (rounds : List (Result ℕ × ℕ)) (app : ℕ) (cut : Option ℕ) (same : List ℕ)
    (later : ℕ → List ℕ) (pending : ℕ)
    → CutsSafely count rounds app same
    → ((index : ℕ)
        → cut ≡ some index
        → (app < index) × (index + count ≡ flush_sn) × CutsSafely count rounds index (later index))
    → CutsSafely count ((ok flush_sn, pending) ∷ rounds) app (cut_at cut same later)
unfolding cut_at
cut_at-CutsSafely count flush_sn rounds app none same later pending s f =
    (s.0, seen_later count flush_sn (flushed rounds) same s.1)
cut_at-CutsSafely count flush_sn rounds app (some index) same later pending s f =
    let at = f index refl in
    let found : (flush_sn == (index + count)) ≡ true = let e = at.1 in ground arith in
    (
      (at.0, at.2.0),
      (ground arith, seen_later count flush_sn (flushed rounds) (later index) at.2.1),
    )

-- Whatever the engine and raft answer, round after round, the log is cut at greater and greater indexes, and each cut
-- leaves just the given count of entries before a number that the engine had flushed: no entry goes that is not
-- in the engine. Condition: the numbers are below 2^61, where int64 does not overflow.
pub truncate_rounds-CutsSafely :
    (count : ℕ) (rounds : List (Result ℕ × ℕ)) (app : ℕ)
    → count < 2 ^ 61
    → app < 2 ^ 61
    → All (λ sn. sn < 2 ^ 61) (flushed rounds)
    → CutsSafely count rounds app (truncate_rounds count rounds app)
unfolding truncate_rounds truncate_round
truncate_rounds-CutsSafely count [] app c a f = (tt, tt)
truncate_rounds-CutsSafely count ((err e, pending) ∷ rounds) app c a f =
    truncate_rounds-CutsSafely count rounds app c a f
truncate_rounds-CutsSafely count ((ok flush_sn, pending) ∷ rounds) app c a f =
    cut_at-CutsSafely count flush_sn rounds app (truncate_round count (ok flush_sn) pending app)
      (truncate_rounds count rounds app) (truncate_rounds count rounds) pending
      (truncate_rounds-CutsSafely count rounds app c a f.1)
      (λ index e.
        let cut = truncate_round-some count flush_sn pending app index c f.0 a e in
        let low : index < 2 ^ 61 = let x = cut.1 in let y = f.0 in omega arith in
        (cut.0, cut.1, truncate_rounds-CutsSafely count rounds index c low f.1))
