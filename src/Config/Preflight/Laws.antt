-- ===== src/Config/Preflight/Laws.antt =====
-- What `Preflight` of internal/config/preflight.go accepts.
use incuse.Base.{
  text_eq, ◌==◌, eq_of_true, All-append, All-parts, sym, ◌∙◌, ℕ, zero, suc, ◌+◌, ◌-◌, ◌*◌, ◌/◌, ◌%◌,
  ◌≤◌, ◌<◌, ◌≡◌, ◌⊎◌, ◌↔◌, inl, inr, refl, Text, true, false, Result, ok, err, List, [], ◌∷◌, ◌++◌,
  All, Bool-cases, arith, if◌then◌else◌,
}
use incuse.Config.{Config, AuthConfig, IncusConfig, auth_mode_pat, auth_mode_app}
use incuse.Config.Validity.{Given}
use incuse.Config.Preflight.{
  FileInfo, FileCheck, FileProblem, a_directory, and_not, mode_problems, file_problems, auth_files,
  incus_files, if_given, check, check_all, preflight,
}

-- The bit of weight 2^i.
abbrev pub bit : ℕ → ℕ → ℕ
bit zero n = n % 2
bit (suc i) n = bit i (n / 2)

abbrev pub Within : ℕ → ℕ → ℕ → Type 0
Within w a b = (i : ℕ) → i < w → bit i a ≤ bit i b

mod-cases : (n : ℕ) → (n % 2 ≡ 0) ⊎ (n % 2 ≡ 1)
mod-cases n = omega arith

-- The lowest bit of `a &^ b`.
low-zero : (a b : ℕ) → (a % 2 * (1 - b % 2) ≡ 0) ↔ (a % 2 ≤ b % 2)
low-zero a b = elim (mod-cases a) [
  | inl e ↦ rw e ((λ h. omega arith), (λ h. omega arith))
  | inr e ↦ rw e ((λ h. omega arith), (λ h. omega arith))
]

sum-zero : (x y : ℕ) → x + 2 * y ≡ 0 → (x ≡ 0) × (y ≡ 0)
sum-zero x y h = (omega arith, omega arith)

and_not-Within : (w a b : ℕ) → and_not w a b ≡ 0 → Within w a b
unfolding and_not
and_not-Within zero a b h i l = ground arith
and_not-Within (suc w) a b h zero l =
    (low-zero a b).0 (sum-zero (a % 2 * (1 - b % 2)) (and_not w (a / 2) (b / 2)) h).0
and_not-Within (suc w) a b h (suc i) l =
    and_not-Within w (a / 2) (b / 2)
      (sum-zero (a % 2 * (1 - b % 2)) (and_not w (a / 2) (b / 2)) h).1 i (omega arith)

Within-and_not : (w a b : ℕ) → Within w a b → and_not w a b ≡ 0
unfolding and_not
Within-and_not zero a b h = refl
Within-and_not (suc w) a b h =
    let low = (low-zero a b).1 (h 0 (omega arith)) in
    let rest = Within-and_not w (a / 2) (b / 2) (λ i l. h (suc i) (omega arith)) in
    rw (low, rest) refl

-- A file that is there, is no directory, and has no permission bit beyond those that it may have.
abbrev pub IsSafe : FileCheck → Result FileInfo → Type 0
IsSafe f r =
    (info : FileInfo) × (r ≡ ok info) × (info.is_dir ≡ false) × Within 9 info.perm f.max_mode

append-nil : (xs ys : List FileProblem) → xs ++ ys ≡ [] → (xs ≡ []) × (ys ≡ [])
append-nil [] ys h = (refl, h)
append-nil (x ∷ xs) ys h = cc

mode-Within : (f : FileCheck) (perm : ℕ) → mode_problems f perm ≡ [] → Within 9 perm f.max_mode
unfolding mode_problems
mode-Within f perm h = and_not-Within 9 perm f.max_mode (ground arith)

file-IsSafe : (f : FileCheck) (r : Result FileInfo) → file_problems f r ≡ [] → IsSafe f r
unfolding file_problems
file-IsSafe f (err e) h = cc
file-IsSafe f (ok info) h = elim (Bool-cases info.is_dir) [
  | inl d ↦ absurd (directory d h)
  | inr d ↦ (info, refl, d, mode-Within f info.perm (regular d h))
]
  where
    directory :
        info.is_dir ≡ true
        → (if info.is_dir then a_directory f ∷ [] else mode_problems f info.perm) ≡ []
        → ⊥
    directory d h = ground arith

    regular :
        info.is_dir ≡ false
        → (if info.is_dir then a_directory f ∷ [] else mode_problems f info.perm) ≡ []
        → mode_problems f info.perm ≡ []
    regular d h = ground arith

IsSafe-file : (f : FileCheck) (r : Result FileInfo) → IsSafe f r → file_problems f r ≡ []
unfolding file_problems mode_problems
IsSafe-file f r (info, e, d, w) =
    rw (e, file_problems, d, Within-and_not 9 info.perm f.max_mode w) refl

if_given-nil : (p : Text) (ps : List FileProblem) → if_given p ps ≡ [] → Given p → ps ≡ []
unfolding if_given
if_given-nil [] ps h g = absurd (g refl)
if_given-nil (c ∷ p) ps h g = h

nil-if_given : (p : Text) (ps : List FileProblem) → (Given p → ps ≡ []) → if_given p ps ≡ []
unfolding if_given
nil-if_given [] ps h = refl
nil-if_given (c ∷ p) ps h = h (λ e. cc)

not_self : (a b : Text) → (a == b) ≡ false → a ≡ b → ⊥
not_self a b h e = ground arith

pat-app : auth_mode_pat ≡ auth_mode_app → ⊥
unfolding text_eq
pat-app e = not_self auth_mode_pat auth_mode_app refl e

module _ (stat : Text → Result FileInfo) where
  abbrev pub Checked : FileCheck → Type 0
  Checked f = Given f.path → IsSafe f (stat f.path)

  check-Checked : (f : FileCheck) → check stat f ≡ [] → Checked f
  unfolding check
  check-Checked f h g = file-IsSafe f (stat f.path) (if_given-nil f.path _ h g)

  Checked-check : (f : FileCheck) → Checked f → check stat f ≡ []
  unfolding check
  Checked-check f h = nil-if_given f.path _ (λ g. IsSafe-file f (stat f.path) (h g))

  check_all-Checked : (fs : List FileCheck) → check_all stat fs ≡ [] → All Checked fs
  unfolding check_all
  check_all-Checked [] h = tt
  check_all-Checked (f ∷ fs) h =
      let (now, later) = append-nil (check stat f) (check_all stat fs) h in
      (check-Checked f now, check_all-Checked fs later)

  Checked-check_all : (fs : List FileCheck) → All Checked fs → check_all stat fs ≡ []
  unfolding check_all
  Checked-check_all [] h = refl
  Checked-check_all (f ∷ fs) h = rw (Checked-check f h.0, Checked-check_all fs h.1) refl

  -- If a path is given: a file is there, and no directory, with no permission bit beyond those of the
  -- mode.
  abbrev pub Guarded : Text → ℕ → Type 0
  Guarded path mode =
      Given path
      → (info : FileInfo) × (stat path ≡ ok info) × (info.is_dir ≡ false) × Within 9 info.perm mode

  -- 0600 and 0644
  abbrev pub owner_only : ℕ
  owner_only = 6 * 64

  abbrev pub all_may_read : ℕ
  all_may_read = 6 * 64 + 4 * 8 + 4

  abbrev pub AuthIsGuarded : AuthConfig → Type 0
  AuthIsGuarded a =
      (a.mode ≡ auth_mode_pat → Guarded a.pat_file owner_only)
      × (a.mode ≡ auth_mode_app → Guarded a.app.private_key_file owner_only)

  abbrev pub IncusIsGuarded : IncusConfig → Type 0
  IncusIsGuarded i =
      Given i.url
      → Guarded i.cert_file owner_only
        × Guarded i.key_file owner_only
        × Guarded i.server_cert_file all_may_read

  -- What is in use of the files that a configuration names.
  abbrev pub FilesAreGuarded : Config → Type 0
  FilesAreGuarded c = AuthIsGuarded c.github.auth × IncusIsGuarded c.incus

  auth-Guarded : (a : AuthConfig) → All Checked (auth_files a) ↔ AuthIsGuarded a
  unfolding auth_files
  auth-Guarded a = elim (Bool-cases (a.mode == auth_mode_pat)) [
    | inl p ↦
        let pat : a.mode ≡ auth_mode_pat = eq_of_true a.mode auth_mode_pat p in
        rw p ((λ h. ((λ _. h.0), (λ app. absurd (pat-app (sym pat ∙ app))))), (λ g. (g.0 pat, tt)))
    | inr p ↦ elim (Bool-cases (a.mode == auth_mode_app)) [
      | inl q ↦
          let app : a.mode ≡ auth_mode_app = eq_of_true a.mode auth_mode_app q in
          rw (p, q)
            ((λ h. ((λ pat. absurd (pat-app (sym pat ∙ app))), (λ _. h.0))), (λ g. (g.1 app, tt)))
      | inr q ↦
          rw (p, q)
            (
              (λ h. (
                (λ pat. absurd (not_self a.mode auth_mode_pat p pat)),
                (λ app. absurd (not_self a.mode auth_mode_app q app)),
              )),
              (λ g. tt),
            )
    ]
  ]

  incus-Guarded : (i : IncusConfig) → All Checked (incus_files i) ↔ IncusIsGuarded i
  unfolding incus_files
  incus-Guarded i = url-Guarded i.url
    where
      url-Guarded :
          (url : Text)
          → All Checked (incus_files (record i { url = url }))
            ↔ IncusIsGuarded (record i { url = url })
      url-Guarded [] = ((λ h g. absurd (g refl)), (λ h. tt))
      url-Guarded (x ∷ url) =
          ((λ h g. (h.0, h.1.0, h.1.1.0)), (λ h. let (c, k, s) = h (λ e. cc) in (c, (k, (s, tt)))))

  files-Guarded :
      (c : Config)
      → All Checked (auth_files c.github.auth ++ incus_files c.incus) ↔ FilesAreGuarded c
  files-Guarded c = (
    (λ h.
        let (a, i) = All-parts Checked (auth_files c.github.auth) (incus_files c.incus) h in
        ((auth-Guarded c.github.auth).0 a, (incus-Guarded c.incus).0 i)),
    (λ (a, i).
        All-append Checked (auth_files c.github.auth) (incus_files c.incus)
          ((auth-Guarded c.github.auth).1 a) ((incus-Guarded c.incus).1 i)),
  )

  -- Preflight reports no problem exactly if: the token file in mode pat, and the app's private key in
  -- mode app, and, with a URL of Incus, the client's certificate and key and the server's certificate,
  -- each if it is given, is there, is no directory, and has no permission bit beyond 0600, or 0644 for
  -- the server's certificate.
  pub preflight_lem : (c : Config) → (preflight stat c ≡ []) ↔ FilesAreGuarded c
  unfolding preflight
  preflight_lem c = (
    (λ h.
        (files-Guarded c).0
          (check_all-Checked (auth_files c.github.auth ++ incus_files c.incus) h)),
    (λ g.
        Checked-check_all (auth_files c.github.auth ++ incus_files c.incus)
          ((files-Guarded c).1 g)),
  )
