-- ===== src/Config/Preflight.antt =====
-- internal/config/preflight.go: `Preflight`. What `os.Stat` says of a path is a parameter.
pub mod Laws
use incuse.Base.{
  ℕ, zero, suc, ◌+◌, ◌-◌, ◌*◌, ◌/◌, ◌%◌, ◌≤◌, ◌<◌, nat_eqb, ◌≡◌, ◌≢◌, ◌⊎◌, ◌↔◌, inl, inr, refl,
  Text, codes, text_eq, ◌==◌, Bool, true, false, Option, none, some, Result, ok, err, List, [], ◌∷◌,
  ◌++◌, All, arith, if◌then◌else◌,
}
use incuse.Config.{Config, AuthConfig, IncusConfig, auth_mode_pat, auth_mode_app}

-- A directory, and the nine permission bits.
pub record FileInfo : Type 0 where
  pub is_dir : Bool
  pub perm : ℕ

-- The setting, its path and the permission bits that it may have.
pub record FileCheck : Type 0 where
  pub what : Text
  pub path : Text
  pub max_mode : ℕ

pub data FileProblem : Type 0 where
  unreadable : FileCheck → Text → FileProblem
  a_directory : FileCheck → FileProblem
  too_open : FileCheck → ℕ → FileProblem

-- `a &^ b` on numbers of `w` bits
unfoldable pub and_not : ℕ → ℕ → ℕ → ℕ
and_not zero a b = 0
and_not (suc w) a b = a % 2 * (1 - b % 2) + 2 * and_not w (a / 2) (b / 2)

abbrev perm_bits : ℕ
perm_bits = 9

unfoldable pub mode_problems : FileCheck → ℕ → List FileProblem
unfolding and_not
mode_problems f perm =
    if nat_eqb (and_not perm_bits perm f.max_mode) 0 then [] else too_open f perm ∷ []

unfoldable pub file_problems : FileCheck → Result FileInfo → List FileProblem
unfolding mode_problems
file_problems f (err e) = unreadable f e ∷ []
file_problems f (ok info) = if info.is_dir then a_directory f ∷ [] else mode_problems f info.perm

unfoldable pub auth_files : AuthConfig → List FileCheck
auth_files a =
    if a.mode == auth_mode_pat
    then record { what = codes "github.auth.pat_file"; path = a.pat_file; max_mode = 0x180 } ∷ []
    else if a.mode == auth_mode_app
    then record {
      what = codes "github.auth.app.private_key_file";
      path = a.app.private_key_file;
      max_mode = 0x180;
    }
      ∷ []
    else []

-- 0o600 is 0x180, and 0o644 is 0x1a4.
unfoldable pub incus_files : IncusConfig → List FileCheck
incus_files c = elim c.url [
  | [] ↦ []
  | _ ∷ _ ↦
      record { what = codes "incus.cert_file"; path = c.cert_file; max_mode = 0x180 }
      ∷ record { what = codes "incus.key_file"; path = c.key_file; max_mode = 0x180 }
      ∷ record {
        what = codes "incus.server_cert_file";
        path = c.server_cert_file;
        max_mode = 0x1a4;
      }
      ∷ []
]

-- `if path == "" { return }`
unfoldable pub if_given : Text → List FileProblem → List FileProblem
if_given [] ps = []
if_given (_ ∷ _) ps = ps

module _ (stat : Text → Result FileInfo) where
  -- The closure `check`
  unfoldable pub check : FileCheck → List FileProblem
  unfolding file_problems if_given
  check f = if_given f.path (file_problems f (stat f.path))

  unfoldable pub check_all : List FileCheck → List FileProblem
  unfolding check
  check_all [] = []
  check_all (f ∷ fs) = check f ++ check_all fs

  -- The configuration is given, or nil, which is an error of its own.
  unfoldable pub preflight : Config → List FileProblem
  unfolding check_all auth_files incus_files
  preflight c = check_all (auth_files c.github.auth ++ incus_files c.incus)

and_not_test : and_not 9 0x1a4 0x180 ≡ 0x24
unfolding and_not
and_not_test = refl
