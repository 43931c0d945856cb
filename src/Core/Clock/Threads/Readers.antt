-- ===== src/Core/Clock/Threads/Readers.antt =====
-- Goroutines that only read the manual clock do not lose its time.
use git_simulator.Base.{
  ℕ, zero, suc, ◌+◌, ℤ, ◌≡◌, refl, ◌⊎◌, inl, inr, Option, none, some, List, [], ◌∷◌, get_elem?, set,
  arith, subst, ap, some_inj,
}
use git_simulator.Core.Clock.{zero_time}
use git_simulator.Core.Clock.Threads.{
  Thread, now_start, now_holding, now_returned, move, Config, Step, moves, Reach, here, next,
}

-- A call of Now on a clock at t: it holds t, or has returned t or the zero time.
abbrev pub IsReader : ℤ → Thread → Type 0
IsReader t now_start = Unit {0}
IsReader t (now_holding u) = u ≡ t
IsReader t (now_returned u) = (u ≡ t) ⊎ (u ≡ zero_time)
IsReader t _ = ⊥

abbrev pub AllReaders : ℤ → List Thread → Type 0
AllReaders t [] = Unit {0}
AllReaders t (th ∷ ths) = IsReader t th × AllReaders t ths

abbrev pub holds : Thread → ℕ
holds (now_holding u) = 1
holds _ = 0

abbrev pub holders : List Thread → ℕ
holders [] = 0
holders (th ∷ ths) = holds th + holders ths

abbrev pub full : Option ℤ → ℕ
full none = 0
full (some _) = 1

abbrev pub CellIs : ℤ → Option ℤ → Type 0
CellIs t none = Unit {0}
CellIs t (some u) = u ≡ t

-- The time t is in the channel or in the hands of one reader, and nowhere twice.
pub record IsKept (t : ℤ) (c : Config) : Type 0 where
  pub readers : AllReaders t c.threads
  pub shows : CellIs t c.cell
  pub once : full c.cell + holders c.threads ≡ 1

IsReader-at :
    (t : ℤ) (ths : List Thread) (i : ℕ) (th : Thread)
    → AllReaders t ths
    → get_elem? ths i ≡ some th
    → IsReader t th
IsReader-at t [] i th all at = cc
IsReader-at t (x ∷ ths) zero th all at = subst (IsReader t) (some_inj at) all.0
IsReader-at t (x ∷ ths) (suc i) th all at = IsReader-at t ths i th all.1 at

AllReaders-set :
    (t : ℤ) (ths : List Thread) (i : ℕ) (th : Thread)
    → AllReaders t ths
    → IsReader t th
    → AllReaders t (set ths i th)
AllReaders-set t [] i th all r = tt
AllReaders-set t (x ∷ ths) zero th all r = (r, all.1)
AllReaders-set t (x ∷ ths) (suc i) th all r = (all.0, AllReaders-set t ths i th all.1 r)

holders-set :
    (ths : List Thread) (i : ℕ) (th th' : Thread)
    → get_elem? ths i ≡ some th
    → holders (set ths i th') + holds th ≡ holders ths + holds th'
holders-set [] i th th' at = cc
holders-set (x ∷ ths) zero th th' at = omega (arith, ap holds (some_inj at))
holders-set (x ∷ ths) (suc i) th th' at = omega (arith, holders-set ths i th th' at)

-- What a reader's step does to the channel and to its own place.
record Moved (t : ℤ) (cell cell' : Option ℤ) (th th' : Thread) : Type 0 where
  reader : IsReader t th'
  shows : CellIs t cell'
  balance : full cell' + holds th' ≡ full cell + holds th

move-Moved :
    (t : ℤ) (cell cell' : Option ℤ) (th th' : Thread)
    → IsReader t th
    → CellIs t cell
    → move cell th ≡ some (cell', th')
    → Moved t cell cell' th th'
unfolding move
move-Moved t (some u) cell' now_start th' r c m =
    subst (λ (q : Option ℤ × Thread). Moved t (some u) q.0 now_start q.1) (some_inj m)
      (record { reader = c; shows = tt; balance = refl })
move-Moved t none cell' now_start th' r c m =
    subst (λ (q : Option ℤ × Thread). Moved t none q.0 now_start q.1) (some_inj m)
      (record { reader = inr refl; shows = tt; balance = refl })
move-Moved t none cell' (now_holding u) th' r c m =
    subst (λ (q : Option ℤ × Thread). Moved t none q.0 (now_holding u) q.1) (some_inj m)
      (record { reader = inl r; shows = r; balance = refl })
move-Moved t (some _) cell' (now_holding u) th' r c m = cc
move-Moved t cell cell' (now_returned u) th' r c m = cc
move-Moved t cell cell' _ th' r c m = absurd r

Step-IsKept : {t : ℤ} {i : ℕ} {c d : Config} → Step i c d → IsKept t c → IsKept t d
Step-IsKept {t} {i} {c} (moves {cell = cell} th th' at m) k =
    let moved =
      move-Moved t c.cell cell th th' (IsReader-at t c.threads i th k.readers at) k.shows m in
    record {
      readers = AllReaders-set t c.threads i th' k.readers moved.reader;
      shows = moved.shows;
      once = omega (arith, holders-set c.threads i th th' at, moved.balance, k.once);
    }

-- However calls of Now overlap, the clock's time stays in the channel or with exactly one of them,
-- and each call that has returned has returned that time or the zero time.
pub Reach-IsKept : {t : ℤ} {c d : Config} → Reach c d → IsKept t c → IsKept t d
Reach-IsKept here k = k
Reach-IsKept (next r s) k = Step-IsKept s (Reach-IsKept r k)
