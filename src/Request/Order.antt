-- ===== src/Request/Order.antt =====
-- `file_mutex`: what holds however the threads take turns.
use peer_to_peer_fileshare.Base.{
  ℕ, ◌≡◌, refl, sym, subst, Bool, true, false, Option, none, some, ◌==◌, ==_refl, ==_iff, nat_eq,
  if◌then◌else◌, arith,
}
use peer_to_peer_fileshare.Request.{
  Program, reads, writes, logs, asks_peer, locks, unlocks, touches, closes, thread_exit,
  process_exit, out_of_fuel, Stale,
}
use peer_to_peer_fileshare.Request.Rules.{Rules, Obeys}
use peer_to_peer_fileshare.Request.Threads.{
  Answers, Threads, holds, goes_on, take, perform, advance, Admissible, Run, begin, turn,
}

pub some-same : {A : Type 0} {x y : A} → some x ≡ some y → x ≡ y
some-same e = cc e

pub none-some : {A : Type 0} {x : A} → none ≡ some x → ⊥
none-some e = cc e

pub holds_self : (i : ℕ) → holds i (some i) ≡ true
holds_self i = ==_refl i

-- At most one thread holds the mutex.
pub holds_one : (i j : ℕ) (h : Option ℕ) → holds i h ≡ true → (j == i) ≡ false → holds j h ≡ false
holds_one i j none h e = refl
holds_one i j (some m) h e = ground (arith, ==_iff i m)

pub advance-at :
    {S : Type 0} (i : ℕ) (p : Program S) (a : Answers) (v : Threads S)
    → v.runs ≡ true
    → v.rest i ≡ p
    → advance i a v ≡ perform i p a v
unfolding advance
advance-at i p a v e h = rw (e, h)

module _ {S : Type 0} (R : Rules S) (old : ℕ → Stale) where
  -- Every thread obeys the rules from where it stands.
  abbrev pub AreOrderly : Threads S → Type 0
  AreOrderly v = (i : ℕ) → Obeys R (old i) (holds i v.holder) (v.rest i)

  -- And the files are as the rules have them.
  abbrev pub IsInOrder : Threads S → Type 0
  IsInOrder v = R.here v.files × AreOrderly v

  stand-Obeys :
      (i j : ℕ) (p : Program S) (rest : ℕ → Program S) (h : Option ℕ) (b : Bool)
      → (j == i) ≡ b
      → Obeys R (old i) (holds i h) p
      → (b ≡ false → Obeys R (old j) (holds j h) (rest j))
      → Obeys R (old j) (holds j h) (if b then p else rest j)
  stand-Obeys i j p rest h true e own other =
      subst (λ m. Obeys R (old m) (holds m h) p) (sym ((==_iff j i).0 e)) own
  stand-Obeys i j p rest h false e own other = other refl

  goes_on-AreOrderly :
      (i : ℕ) (p : Program S) (files : S) (h : Option ℕ) (v : Threads S)
      → Obeys R (old i) (holds i h) p
      → ((j : ℕ) → (j == i) ≡ false → Obeys R (old j) (holds j h) (v.rest j))
      → AreOrderly (goes_on i p files h v)
  goes_on-AreOrderly i p files h v own others j =
      stand-Obeys i j p v.rest h (j == i) refl own (others j)

  same-Obeys :
      (j : ℕ) (h g : Option ℕ) (p : Program S)
      → holds j h ≡ holds j g
      → Obeys R (old j) (holds j h) p
      → Obeys R (old j) (holds j g) p
  same-Obeys j h g p e = subst (λ b. Obeys R (old j) b p) e

  take-IsInOrder :
      (i : ℕ) (p : Program S) (v w : Threads S) (h : Option ℕ)
      → v.holder ≡ h
      → IsInOrder v
      → Obeys R (old i) true p
      → take i p v h ≡ some w
      → IsInOrder w
  take-IsInOrder i p v w (some j) e (at, all) own g = absurd (none-some g)
  take-IsInOrder i p v w none e (at, all) own g = subst IsInOrder (some-same g) (
    at,
    goes_on-AreOrderly i p v.files (some i) v
        (subst (λ b. Obeys R (old i) b p) (sym (holds_self i)) own)
        (λ j d. same-Obeys j v.holder (some i) (v.rest j) (rw e (sym d)) (all j)),
  )

  perform-IsInOrder :
      (i : ℕ) (p : Program S) (a : Answers) (v w : Threads S)
      → IsInOrder v
      → Obeys R (old i) (holds i v.holder) p
      → Admissible R (old i) p a
      → perform i p a v ≡ some w
      → IsInOrder w
  unfolding perform
  perform-IsInOrder i (reads f k) a v w (at, all) own admits e =
      subst IsInOrder (some-same e) (
        at,
        goes_on-AreOrderly i (k a.line) v.files v.holder v (own.1 a.line admits) (λ j d. all j),
      )
  perform-IsInOrder i (writes x k) a v w (at, all) own admits e =
      subst IsInOrder (some-same e)
        (at, goes_on-AreOrderly i (k a.done) v.files v.holder v (own a.done) (λ j d. all j))
  perform-IsInOrder i (logs x k) a v w (at, all) own admits e =
      subst IsInOrder (some-same e)
        (at, goes_on-AreOrderly i (k a.done) v.files v.holder v (own a.done) (λ j d. all j))
  perform-IsInOrder i (asks_peer k) a v w (at, all) own admits e =
      subst IsInOrder (some-same e)
        (at, goes_on-AreOrderly i (k a.peer) v.files v.holder v (own a.peer) (λ j d. all j))
  perform-IsInOrder i (locks p) a v w (at, all) own admits e =
      take-IsInOrder i p v w v.holder refl (at, all) own.1 e
  perform-IsInOrder i (unlocks p) a v w (at, all) own admits e = subst IsInOrder (some-same e) (
    at,
    goes_on-AreOrderly i p v.files none v own.1
        (λ j d. same-Obeys j v.holder none (v.rest j) (holds_one i j v.holder own.0 d) (all j)),
  )
  perform-IsInOrder i (touches f k) a v w (at, all) own admits e = subst IsInOrder (some-same e) (
    R.keeps f own.1 v.files at,
    goes_on-AreOrderly i (k v.files) (f v.files) v.holder v (own.2 v.files at) (λ j d. all j),
  )
  perform-IsInOrder i (closes p) a v w (at, all) own admits e =
      subst IsInOrder (some-same e)
        (at, goes_on-AreOrderly i p v.files v.holder v own (λ j d. all j))
  perform-IsInOrder i thread_exit a v w (at, all) own admits e = absurd (none-some e)
  perform-IsInOrder i (process_exit n) a v w (at, all) own admits e =
      subst IsInOrder (some-same e) (at, all)
  perform-IsInOrder i out_of_fuel a v w (at, all) own admits e = absurd (none-some e)

  runs_on :
      (b : Bool) (o : Option (Threads S)) (w : Threads S)
      → (if b then o else none) ≡ some w
      → (b ≡ true) × (o ≡ some w)
  runs_on true o w e = (refl, e)
  runs_on false o w e = absurd (none-some e)

  pub advance-perform :
      (i : ℕ) (a : Answers) (v w : Threads S)
      → advance i a v ≡ some w
      → perform i (v.rest i) a v ≡ some w
  unfolding advance
  advance-perform i a v w e = (runs_on v.runs _ w e).1

  pub Run-IsInOrder : {v w : Threads S} → IsInOrder v → Run R old v w → IsInOrder w
  Run-IsInOrder h begin = h
  Run-IsInOrder h (turn {w} {x} i a r admits e) =
      let before = Run-IsInOrder h r in
      perform-IsInOrder i (w.rest i) a w x before (before.1 i) admits (advance-perform i a w x e)
