-- ===== src/Request/Stuck.antt =====
-- A thread that ended while it held `file_mutex`, and how `LIST_USERS` comes to that.
use peer_to_peer_fileshare.Base.{
  ℕ, ◌≡◌, subst, ◌∙◌, ap, false, Option, none, some, ◌==◌, list_eq, nat_eq, arith, inl, inr,
  Bool-cases, ==_iff,
}
use peer_to_peer_fileshare.Request.{
  Program, reads, writes, logs, asks_peer, locks, unlocks, touches, closes, thread_exit,
  process_exit, out_of_fuel, Stale,
}
use peer_to_peer_fileshare.Request.Rules.{Rules, Obeys}
use peer_to_peer_fileshare.Request.Threads.{
  Answers, Threads, holds, goes_on, take, perform, advance, Run, begin, turn,
}
use peer_to_peer_fileshare.Request.Order.{
  IsInOrder, Run-IsInOrder, advance-perform, some-same, none-some, holds_one, holds_self,
}

module _ {S : Type 0} (R : Rules S) (old : ℕ → Stale) (i : ℕ) (files : S) where
  -- Thread `i` has ended with the mutex locked, while the files were `files`.
  abbrev pub IsStuck : Threads S → Type 0
  IsStuck v = (v.rest i ≡ thread_exit) × (v.holder ≡ some i) × (v.files ≡ files)

  same-IsStuck :
      (j : ℕ) (p : Program S) (v : Threads S)
      → (j == i) ≡ false
      → IsStuck v
      → IsStuck (goes_on j p v.files v.holder v)
  same-IsStuck j p v d (e, h, g) = (ground (arith, e, ==_iff i j, ==_iff j i), h, g)

  took :
      {w : Threads S} (j : ℕ) (p : Program S) (v : Threads S) (o : Option ℕ)
      → o ≡ some i
      → take j p v o ≡ some w
      → ⊥
  took j p v none h e = none-some h
  took j p v (some k) h e = none-some e

  perform-IsStuck :
      (j : ℕ) (p : Program S) (a : Answers) (v w : Threads S)
      → (j == i) ≡ false
      → Obeys R (old j) false p
      → IsStuck v
      → perform j p a v ≡ some w
      → IsStuck w
  unfolding perform
  perform-IsStuck j (reads f k) a v w d o h e = subst IsStuck (some-same e) (same-IsStuck j _ v d h)
  perform-IsStuck j (writes x k) a v w d o h e =
      subst IsStuck (some-same e) (same-IsStuck j _ v d h)
  perform-IsStuck j (logs x k) a v w d o h e = subst IsStuck (some-same e) (same-IsStuck j _ v d h)
  perform-IsStuck j (asks_peer k) a v w d o h e =
      subst IsStuck (some-same e) (same-IsStuck j _ v d h)
  perform-IsStuck j (locks p) a v w d o h e = absurd (took j p v v.holder h.1 e)
  perform-IsStuck j (unlocks p) a v w d o h e = absurd (cc o.0)
  perform-IsStuck j (touches f k) a v w d o h e = absurd (cc o.0)
  perform-IsStuck j (closes p) a v w d o h e = subst IsStuck (some-same e) (same-IsStuck j p v d h)
  perform-IsStuck j thread_exit a v w d o h e = absurd (none-some e)
  perform-IsStuck j (process_exit n) a v w d o h e = subst IsStuck (some-same e) h
  perform-IsStuck j out_of_fuel a v w d o h e = absurd (none-some e)

  ended :
      (p : Program S) (a : Answers) (v w : Threads S)
      → p ≡ thread_exit
      → perform i p a v ≡ some w
      → ⊥
  unfolding perform
  ended p a v w h e = none-some (subst (λ q. perform i q a v ≡ some w) h e)

  advance-IsStuck :
      (j : ℕ) (a : Answers) (v w : Threads S)
      → IsInOrder R old v
      → IsStuck v
      → advance j a v ≡ some w
      → IsStuck w
  advance-IsStuck j a v w all h e = elim (Bool-cases (j == i)) [
    | inl d ↦ absurd (
        ended (v.rest j) a v w (ap v.rest ((==_iff j i).0 d) ∙ h.0) (
          subst (λ m. perform m (v.rest j) a v ≡ some w) ((==_iff j i).0 d)
            (advance-perform R old j a v w e)))
    | inr d ↦
        perform-IsStuck j (v.rest j) a v w d
          (subst (λ b. Obeys R (old j) b (v.rest j))
            (holds_one i j v.holder (ap (holds i) h.1 ∙ holds_self i) d) (all.1 j))
          h (advance-perform R old j a v w e)
  ]

  pub Run-IsStuck : {v w : Threads S} → IsInOrder R old v → IsStuck v → Run R old v w → IsStuck w
  Run-IsStuck all h begin = h
  Run-IsStuck all h (turn {w} {x} j a r ok e) =
      advance-IsStuck j a w x (Run-IsInOrder R old all r) (Run-IsStuck all h r) e
