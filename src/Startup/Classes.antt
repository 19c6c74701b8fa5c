-- ===== src/Startup/Classes.antt =====
-- What the constructors that cmd/incuse/main.go calls need of the credentials and of one class.
use incuse.Base.{
  ℕ, ◌<◌, ltb, length, ℤ, pos, pos_part, int_eq, wrap_int64, wrap-mul, ◌*ℤ◌, Text, text_eq, ◌==◌,
  eq_self, contains, is_empty, to_lower, true, not, ◌&&◌, Result, ok, err, List, [], ◌∷◌, ◌++◌, map,
  ◌≡◌, refl, ap, sym, ◌∙◌, negsuc, ◌⊎◌, inl, inr, arith, All, Passes,
}
use incuse.Config.{Config, AuthConfig, ScaleSetConfig, RunnerClassConfig, auth_mode_pat}
use incuse.Config.Labels.{scale_set_name, scale_set_labels, runner_spec}
use incuse.Config.Labels.Laws.{scale_set_labels_lem}
use incuse.Config.Validate.{is_positive}
use incuse.Config.Validity.{Given, Positive, IsAuth, IsClass, of_Given, of_Positive}
use incuse.Scaleset.{app_checks}
use incuse.Startup.{read_auth_creds, pat_creds, scale_set_options}

append-full : (xs : Text) (y : ℕ) (ys : Text) → not (is_empty (xs ++ y ∷ ys)) ≡ true
append-full [] y ys = refl
append-full (x ∷ xs) y ys = refl

pub name-full :
    (c : RunnerClassConfig) (prefix : Text) → not (is_empty (scale_set_name c prefix)) ≡ true
unfolding scale_set_name
name-full c prefix = append-full prefix _ _

contains-last : (xs : List Text) (x : Text) → contains (xs ++ x ∷ []) x ≡ true
contains-last [] x = ground (arith, eq_self x)
contains-last (y ∷ xs) x = ground (arith, contains-last xs x)

contains-length :
    (xs : List Text) (x : Text) → contains (map to_lower xs) x ≡ true → ltb 0 (length xs) ≡ true
contains-length [] x h = cc
contains-length (y ∷ xs) x h = ground arith

pub labels-full :
    (base : List Text) (c : RunnerClassConfig) (prefix : Text)
    → ltb 0 (length (scale_set_labels base (scale_set_name c prefix))) ≡ true
labels-full base c prefix =
    let name = scale_set_name c prefix in
    let (_, _, kept) = scale_set_labels_lem base name in
    contains-length (scale_set_labels base name) (to_lower name)
      (kept name (contains-last base name) (ground (arith, name-full c prefix)))

pat_creds-key :
    (path : Text) (r : Result Text) (pat key : Text) → pat_creds path r ≡ inr (pat, key) → key ≡ []
unfolding pat_creds
pat_creds-key path (err e) pat key h = cc
pat_creds-key path (ok b) pat key h = cc

read-pat :
    (read_file : Text → Result Text) (a : AuthConfig)
    → a.mode ≡ auth_mode_pat
    → read_auth_creds read_file a ≡ pat_creds a.pat_file (read_file a.pat_file)
unfolding read_auth_creds text_eq
read-pat read_file a m = rw (ap (λ z. z == auth_mode_pat) m)

-- Credentials that `read_auth_creds` returns and of which one is not empty.
pub creds-Passes :
    (read_file : Text → Result Text) (c : Config) (spec : ScaleSetConfig) (pat key : Text)
    → IsAuth c.github.auth
    → read_auth_creds read_file c.github.auth ≡ inr (pat, key)
    → (Given pat ⊎ Given key)
    → All Passes (app_checks (scale_set_options c pat key spec))
unfolding app_checks scale_set_options
creds-Passes read_file c spec (x ∷ pat) key v h g = tt
creds-Passes read_file c spec [] key v h (inl g) = absurd (g refl)
creds-Passes read_file c spec [] key (inl (m, f)) h (inr g) =
    let a = c.github.auth in
    absurd (
      g (pat_creds-key a.pat_file (read_file a.pat_file) [] key (sym (read-pat read_file a m) ∙ h)))
creds-Passes read_file c spec [] key (inr (m, i, k, n)) h (inr g) =
    (of_Given key g, (of_Given c.github.auth.app.client_id i, (ground arith, tt)))

-- A memory size that `runner_spec` turns into MiB without overflow.
abbrev pub Fits : RunnerClassConfig → Type 0
Fits c = pos_part c.memory_gib < 0x20000000000000

memory_fits :
    (m : ℤ)
    → Positive m
    → pos_part m < 0x20000000000000
    → is_positive (wrap_int64 (m *ℤ pos 1024)) ≡ true
memory_fits (pos m) h f = rw (wrap-mul m 1024 (omega arith)) (ground arith)
memory_fits (negsuc m) h f = ground arith

pub shape-Passes :
    (c : RunnerClassConfig) (prefix : Text)
    → IsClass prefix c
    → Fits c
    → (is_positive (runner_spec c).vcpus
        && is_positive (runner_spec c).memory_mb
        && is_positive (runner_spec c).disk_gb)
      ≡ true
unfolding runner_spec
shape-Passes c prefix k f =
    rw
      (
        of_Positive c.vcpus k.vcpus,
        memory_fits c.memory_gib k.memory f,
        of_Positive c.disk_gib k.disk,
      )
      refl
