-- ===== src/Request/Changes.antt =====
-- What one step of a thread does to the files, from what each of its calls may do.
use peer_to_peer_fileshare.Base.{ℕ, ◌≡◌, refl, sym, subst, Bool, Option, none, some}
use peer_to_peer_fileshare.Request.{
  Program, reads, writes, logs, asks_peer, locks, unlocks, touches, closes, thread_exit,
  process_exit, out_of_fuel, Stale,
}
use peer_to_peer_fileshare.Request.Rules.{Rules, Obeys}
use peer_to_peer_fileshare.Request.Threads.{Answers, Threads, take, perform}
use peer_to_peer_fileshare.Request.Order.{some-same, none-some}

-- The files before and after a step are related, if they are where nothing changes and after each call that
-- the rules let a thread make.
module _ {S : Type 0} (R : Rules S) (old : ℕ → Stale) (Rel : S → S → Type 0)
    (same : (s : S) → Rel s s) (made : (f : S → S) → R.may f → (s : S) → Rel s (f s)) where
  unmoved : (v w x : Threads S) → x.files ≡ v.files → some x ≡ some w → Rel v.files w.files
  unmoved v w x h e =
      subst (λ y. Rel v.files y.files) (some-same e) (subst (Rel v.files) (sym h) (same v.files))

  taken :
      (i : ℕ) (p : Program S) (v w : Threads S) (h : Option ℕ)
      → take i p v h ≡ some w
      → Rel v.files w.files
  taken i p v w none e = unmoved v w _ refl e
  taken i p v w (some j) e = absurd (none-some e)

  pub perform-changes :
      (i : ℕ) (held : Bool) (p : Program S) (a : Answers) (v w : Threads S)
      → Obeys R (old i) held p
      → perform i p a v ≡ some w
      → Rel v.files w.files
  unfolding perform
  perform-changes i held (reads f k) a v w o e = unmoved v w _ refl e
  perform-changes i held (writes x k) a v w o e = unmoved v w _ refl e
  perform-changes i held (logs x k) a v w o e = unmoved v w _ refl e
  perform-changes i held (asks_peer k) a v w o e = unmoved v w _ refl e
  perform-changes i held (locks p) a v w o e = taken i p v w v.holder e
  perform-changes i held (unlocks p) a v w o e = unmoved v w _ refl e
  perform-changes i held (touches f k) a v w (h, may, more) e =
      subst (λ y. Rel v.files y.files) (some-same e) (made f may v.files)
  perform-changes i held (closes p) a v w o e = unmoved v w _ refl e
  perform-changes i held thread_exit a v w o e = absurd (none-some e)
  perform-changes i held (process_exit n) a v w o e = unmoved v w _ refl e
  perform-changes i held out_of_fuel a v w o e = absurd (none-some e)
