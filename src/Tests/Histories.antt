-- ===== src/Tests/Histories.antt =====
-- The theorem on the accounts of the running server at work.
use peer_to_peer_fileshare.Base.{ℕ, ◌≡◌, refl, some, List, [], ◌∷◌, arith, list_eq, nat_eq}
use peer_to_peer_fileshare.CString.{Text, codes}
use peer_to_peer_fileshare.Posix.Memory.{memory, memory-IsLawful, memory-IsRelative}
use peer_to_peer_fileshare.Request.History.{History}
use peer_to_peer_fileshare.Request.{
  Field, operation, c_time_string, username, file_name, owner, port_str, description, Program,
  reads, writes, logs, asks_peer, locks, unlocks, touches, closes, thread_exit, process_exit,
  out_of_fuel, tratar_peticion,
}
use peer_to_peer_fileshare.Request.Threads.{Answers, Threads, Admissible, Run, opened}
use peer_to_peer_fileshare.Request.ListFiles.{IsShort}
use peer_to_peer_fileshare.Request.Evolution.{AreNames, named}
use peer_to_peer_fileshare.Request.Rules.{Rules}
use peer_to_peer_fileshare.Tests.Play.{unset, says, play, play-Run, AreAdmissible, or_start}
use peer_to_peer_fileshare.Tests.Data.{ann-IsUser, ann, started}

abbrev pub rules : Rules memory.State
rules = named memory-IsLawful memory-IsRelative (λ s. 2) unset

short-AreNames : (f : Field) (x : Text) → IsShort x → AreNames f x
short-AreNames operation x h = tt
short-AreNames c_time_string x h = tt
short-AreNames username x h = h
short-AreNames file_name x h = h.name
short-AreNames owner x h = h
short-AreNames port_str x h = tt
short-AreNames description x h = tt

short-Admissible :
    (i : ℕ) (x : Text)
    → IsShort x
    → (p : Program memory.State) → Admissible rules (unset i) p (says x)
short-Admissible i x h (reads f k) = short-AreNames f x h
short-Admissible i x h (writes y k) = tt
short-Admissible i x h (logs y k) = tt
short-Admissible i x h (asks_peer k) = tt
short-Admissible i x h (locks p) = tt
short-Admissible i x h (unlocks p) = tt
short-Admissible i x h (touches f k) = tt
short-Admissible i x h (closes p) = tt
short-Admissible i x h thread_exit = tt
short-Admissible i x h (process_exit n) = tt
short-Admissible i x h out_of_fuel = tt

abbrev order : Text
order = codes "REGISTER"

order-IsShort : IsShort order
order-IsShort = record {
  name = record {
    nonempty = λ e. cc;
    no_slash = refl;
    name_max = omega arith;
    no_dot = λ e. cc;
    no_dot_dot = λ e. cc;
  };
  short = omega arith;
}

ann-IsShort : IsShort ann
ann-IsShort = record { name = ann-IsUser.name; short = omega arith }

-- A thread registers ann, up to the unlock; the last call first.
abbrev register_ann : List (ℕ × Answers)
register_ann =
    (0, says order)
    ∷ (0, says order)
    ∷ (0, says order)
    ∷ (0, says ann)
    ∷ (0, says order)
    ∷ (0, says order)
    ∷ []

register_ann-AreAdmissible : AreAdmissible rules register_ann
register_ann-AreAdmissible = (
  short-Admissible 0 order order-IsShort,
  (
    short-Admissible 0 order order-IsShort,
    (
      short-Admissible 0 order order-IsShort,
      (
        short-Admissible 0 ann ann-IsShort,
        (short-Admissible 0 order order-IsShort, (short-Admissible 0 order order-IsShort, tt)),
      ),
    ),
  ),
)

unfoldable pub after_ann : Threads memory.State
unfolding play tratar_peticion memory
after_ann =
    or_start (opened memory unset (λ s. 2) started)
      (play register_ann (opened memory unset (λ s. 2) started))

after_ann_plays : play register_ann (opened memory unset (λ s. 2) started) ≡ some after_ann
unfolding after_ann play tratar_peticion memory
after_ann_plays = refl

pub ann_registers : Run rules unset (opened memory unset (λ s. 2) started) after_ann
ann_registers =
    play-Run rules register_ann (opened memory unset (λ s. 2) started) after_ann
      register_ann-AreAdmissible after_ann_plays
