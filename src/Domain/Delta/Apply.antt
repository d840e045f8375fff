-- ===== src/Domain/Delta/Apply.antt =====
-- The client's side of a plan: a tree of files, the steps of the plan, and what they leave.
use mathlib.Core.List.{mem-cons, not-mem-nil}
use mathlib.Core.Logic.Or
use custom_game_launcher_bac.Base.{
  ◌≡◌, sym, ◌∙◌, ap, ◌≢◌, ◌↔◌, ◌⊎◌, inl, inr, List, [], ◌∷◌, ◌++◌, map, Mem, Option, none, some,
  arith, is_empty, if◌then◌else◌, All, All-of_mem, mem-All, Bytes, eq_bytes, eq_bytes_iff,
  Bool-cases,
}
use custom_game_launcher_bac.Domain.Delta.{DeltaFile, BuildDelta}

-- What an install holds: the content at each path, named by its hash.
abbrev pub Tree : Type 0
Tree = Bytes → Option Bytes

pub data Action : Type 0 where
  store : Bytes → Bytes → Action
  copy : Bytes → Bytes → Action
  delete : Bytes → Action

abbrev pub write : Tree → Bytes → Option Bytes → Tree
write t p v q = if eq_bytes p q then v else t q

-- A copy reads what stands at its source when the step is made.
pub perform : Action → Tree → Tree
perform (store p sha256) t = write t p (some sha256)
perform (copy p q) t = write t p (t q)
perform (delete p) t = write t p none

pub run : List Action → Tree → Tree
run [] t = t
run (a ∷ steps) t = run steps (perform a t)

abbrev pub file_action : DeltaFile → Action
file_action f =
    if is_empty f.copy_from_relative_path
    then store f.entry.relative_path f.entry.blob_sha256
    else copy f.entry.relative_path f.copy_from_relative_path

abbrev pub actions : BuildDelta → List Action
actions plan = map file_action plan.fetch ++ map delete plan.remove

-- The action writes what `new` holds at its path. A copy reads a path that need not change.
abbrev pub Aims : Tree → Tree → Action → Type 0
Aims old new (store p sha256) = new p ≡ some sha256
Aims old new (copy p q) = (old q ≡ new q) × (new p ≡ new q)
Aims old new (delete p) = new p ≡ none

abbrev pub target_path : Action → Bytes
target_path (store p sha256) = p
target_path (copy p q) = p
target_path (delete p) = p

Content-set : IsSet (Option Bytes)
Content-set = hlevel

Aims-prop : (old new : Tree) (a : Action) → IsProp (Aims old new a)
Aims-prop old new (store p sha256) = Content-set _ _
Aims-prop old new (copy p q) = hlevel Content-set
Aims-prop old new (delete p) = Content-set _ _

-- What need not change is as the target wants it.
abbrev Keeps : Tree → Tree → Tree → Type 0
Keeps old new t = (q : Bytes) → old q ≡ new q → t q ≡ new q

perform_cases :
    (old new t : Tree) (a : Action) (p : Bytes)
    → Keeps old new t
    → Aims old new a
    → (perform a t p ≡ new p) ⊎ ((target_path a ≢ p) × (perform a t p ≡ t p))
unfolding perform
perform_cases old new t (store q sha256) p k h = elim (Bool-cases (eq_bytes q p)) [
  | inl hit ↦ let same = (eq_bytes_iff q p).0 hit in inl (rw hit (cc (h, ap new same)))
  | inr miss ↦ inr ((λ e. ground (arith, eq_bytes_iff q p)), rw miss)
]
perform_cases old new t (copy q r) p k h = elim (Bool-cases (eq_bytes q p)) [
  | inl hit ↦ let same = (eq_bytes_iff q p).0 hit in inl (rw hit (cc (k r h.0, h.1, ap new same)))
  | inr miss ↦ inr ((λ e. ground (arith, eq_bytes_iff q p)), rw miss)
]
perform_cases old new t (delete q) p k h = elim (Bool-cases (eq_bytes q p)) [
  | inl hit ↦ let same = (eq_bytes_iff q p).0 hit in inl (rw hit (cc (h, ap new same)))
  | inr miss ↦ inr ((λ e. ground (arith, eq_bytes_iff q p)), rw miss)
]

perform-Keeps :
    (old new t : Tree) (a : Action) → Keeps old new t → Aims old new a → Keeps old new (perform a t)
perform-Keeps old new t a k h q e = elim (perform_cases old new t a q k h) [
  | inl done ↦ done
  | inr (_, same) ↦ same ∙ k q e
]

-- A path that is right stays right.
run_right :
    (old new t : Tree) (steps : List Action) (p : Bytes)
    → Keeps old new t
    → All (Aims old new) steps
    → t p ≡ new p
    → run steps t p ≡ new p
unfolding run
run_right old new t [] p k all e = e
run_right old new t (a ∷ steps) p k all e =
    run_right old new (perform a t) steps p (perform-Keeps old new t a k all.0) all.1
      (elim (perform_cases old new t a p k all.0) [ inl done ↦ done | inr (_, same) ↦ same ∙ e ])

-- A path that some action writes becomes right.
run_written :
    (old new t : Tree) (steps : List Action) (a : Action)
    → Keeps old new t
    → All (Aims old new) steps
    → Mem a steps
    → run steps t (target_path a) ≡ new (target_path a)
unfolding run
run_written old new t [] a k all m = absurd (not-mem-nil m)
run_written old new t (b ∷ steps) a k all m =
    Or.elim (Content-set _ _) (mem-cons.0 m)
      (λ e.
        run_right old new (perform b t) steps (target_path a) (perform-Keeps old new t b k all.0)
          all.1
          (elim (perform_cases old new t b (target_path a) k all.0) [
            | inl done ↦ done
            | inr (other, _) ↦ absurd (other (ap target_path (sym e)))
          ]))
      (λ later.
        run_written old new (perform b t) steps a (perform-Keeps old new t b k all.0) all.1 later)

-- Each path is right already, or the plan writes it.
abbrev pub Covers : Tree → Tree → List Action → Type 0
Covers old new steps =
    (p : Bytes) → (old p ≡ new p) ⊎ ((a : Action) × Mem a steps × (target_path a ≡ p))

pub run_plan :
    (old new : Tree) (plan steps : List Action)
    → All (Aims old new) plan
    → Covers old new plan
    → ((a : Action) → Mem a steps ↔ Mem a plan)
    → (p : Bytes) → run steps old p ≡ new p
run_plan old new plan steps all covers same p = elim (covers p) [
  | inl right ↦ run_right old new old steps p keeps aims right
  | inr (a, m, e) ↦
      ap (run steps old) (sym e)
      ∙ run_written old new old steps a keeps aims ((same a).1 m)
      ∙ ap new e
]
  where
    keeps : Keeps old new old
    keeps q h = h

    aims : All (Aims old new) steps
    aims = All-of_mem _ steps (λ a m. mem-All _ (Aims-prop old new) a plan all ((same a).0 m))
