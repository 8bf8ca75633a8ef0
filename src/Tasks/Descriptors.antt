-- ===== src/Tasks/Descriptors.antt =====
-- The table of file descriptors of proc/Task.cc.
use valkyrie.Base.{
  ℕ, zero, suc, ◌+◌, ◌≤◌, ◌<◌, ◌≡◌, ◌≢◌, refl, sym, ap, subst, ◌∙◌, true, false, Option, none, some,
  ◌⊎◌, inl, inr, ◌==◌, ==_refl, arith, Option-cases, Bool-cases,
}
use valkyrie.Base.Outcome.{ok}
use valkyrie.Tasks.{Tasks, change}
use valkyrie.Tasks.Calls.{
  fd_limits, is_fd_valid, first_free, allocate_fd_for_file, release_fd_and_get_file, get_file_by_fd,
  set_fd,
}

abbrev pub Taken : (ℕ → Option ℕ) → ℕ → Type 0
Taken table fd = (file : ℕ) × (table fd ≡ some file)

-- The first free entry from `i` on, or that there is none among the `n`.
abbrev pub FirstFree : (ℕ → Option ℕ) → ℕ → ℕ → Option ℕ → Type 0
FirstFree table i n none = (j : ℕ) → i ≤ j → j < i + n → Taken table j
FirstFree table i n (some k) =
    (i ≤ k) × (k < i + n) × (table k ≡ none) × ((j : ℕ) → i ≤ j → j < k → Taken table j)

-- What holds from `i + 1` on holds from `i` on, where `i` is taken.
from :
    (P : ℕ → Type 0) (i b : ℕ)
    → P i
    → ((j : ℕ) → i + 1 ≤ j → j < b → P j)
    → (j : ℕ) → i ≤ j
    → j < b
    → P j
from P i b p f j a h = elim (Bool-cases (i == j)) [
  | inl e ↦ subst P (ground arith) p
  | inr e ↦ f j (ground arith) h
]

FirstFree-suc :
    (table : ℕ → Option ℕ) (i n : ℕ) (o : Option ℕ)
    → Taken table i
    → FirstFree table (i + 1) n o
    → FirstFree table i (suc n) o
FirstFree-suc table i n none t h = from (Taken table) i (i + suc n) t (λ j a b. h j a (omega arith))
FirstFree-suc table i n (some k) t (a, b, c, d) =
    (omega arith, omega arith, c, from (Taken table) i k t d)

first_free_lem : (n i : ℕ) (table : ℕ → Option ℕ) → FirstFree table i n (first_free n i table)
unfolding first_free
first_free_lem zero i table = λ j a b. absurd (omega arith)
first_free_lem (suc n) i table = elim (Option-cases (table i)) [
  | inl free ↦
      rw (FirstFree, first_free, free)
        (omega arith, omega arith, free, λ j a b. absurd (omega arith))
  | inr (f, e) ↦
      rw (FirstFree, first_free, e)
        (FirstFree-suc table i n (first_free n (i + 1) table) (f, e)
          (first_free_lem n (i + 1) table))
]

get_set :
    (s : Tasks) (t i : ℕ) (file : Option ℕ)
    → i < fd_limits
    → get_file_by_fd (change s t (set_fd i file)) t i ≡ file
unfolding get_file_by_fd is_fd_valid
get_set s t i file h =
    let v : is_fd_valid i ≡ true = ground arith in rw (v, ==_refl t, ==_refl i) refl

get_set_other :
    (s : Tasks) (t i j : ℕ) (file : Option ℕ)
    → j ≢ i
    → get_file_by_fd (change s t (set_fd i file)) t j ≡ get_file_by_fd s t j
unfolding get_file_by_fd
get_set_other s t i j file h = let ne : (i == j) ≡ false = ground arith in rw (==_refl t, ne) refl

release_set :
    (s : Tasks) (t i : ℕ) (file : Option ℕ)
    → i < fd_limits
    → (s.tasks t).fd_table i ≡ none
    → let r = release_fd_and_get_file (change s t (set_fd i file)) t i in
      (r.1 ≡ file) × ((j : ℕ) → (r.0.tasks t).fd_table j ≡ (s.tasks t).fd_table j)
unfolding release_fd_and_get_file is_fd_valid
release_set s t i file h e =
    let v : is_fd_valid i ≡ true = ground arith in
    rw v (
      rw (==_refl t, ==_refl i) refl,
      λ j. elim (Bool-cases (i == j)) [
        | inl same ↦ rw (==_refl t, same) (sym e ∙ ap (s.tasks t).fd_table (ground arith))
        | inr other ↦ rw (==_refl t, other) refl
      ],
    )

-- `allocate_fd_for_file` takes the lowest free descriptor, at which the file is found from then on and
-- all others are as before, and fails without a change only where all are taken.
pub allocate_fd_for_file_lem :
    (s : Tasks) (t file : ℕ)
    → ((allocate_fd_for_file s t (some file) ≡ ok (s, none))
        × ((fd : ℕ) → fd < fd_limits → Taken (s.tasks t).fd_table fd))
      ⊎ ((s' : Tasks) × (fd : ℕ) × (allocate_fd_for_file s t (some file) ≡ ok (s', some fd))
          × (fd < fd_limits)
          × ((s.tasks t).fd_table fd ≡ none)
          × ((j : ℕ) → j < fd → Taken (s.tasks t).fd_table j)
          × (get_file_by_fd s' t fd ≡ some file)
          × ((j : ℕ) → j ≢ fd → get_file_by_fd s' t j ≡ get_file_by_fd s t j)
          × ((release_fd_and_get_file s' t fd).1 ≡ some file)
          × ((j : ℕ)
              → ((release_fd_and_get_file s' t fd).0.tasks t).fd_table j ≡ (s.tasks t).fd_table j))
unfolding allocate_fd_for_file
allocate_fd_for_file_lem s t file =
    elim (Option-cases (first_free fd_limits 0 (s.tasks t).fd_table)) [
      | inl full ↦ inl (
        rw (allocate_fd_for_file, full) refl,
        λ fd h.
            subst (FirstFree (s.tasks t).fd_table 0 fd_limits) full
              (first_free_lem fd_limits 0 (s.tasks t).fd_table) fd (omega arith) (omega arith),
      )
      | inr (i, e) ↦
          let (a, b, c, d) =
            subst (FirstFree (s.tasks t).fd_table 0 fd_limits) e
              (first_free_lem fd_limits 0 (s.tasks t).fd_table) in
          let r = release_set s t i (some file) b c in
          inr (
            change s t (set_fd i (some file)),
            i,
            rw (allocate_fd_for_file, e) refl,
            b,
            c,
            (λ j h. d j (omega arith) h),
            get_set s t i (some file) b,
            (λ j n. get_set_other s t i j (some file) n),
            r.0,
            r.1,
          )
    ]
