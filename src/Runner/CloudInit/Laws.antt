-- ===== src/Runner/CloudInit/Laws.antt =====
-- What `Render` of internal/runner/cloudinit.go renders.
use incuse.Base.{
  ℕ, [], ◌∷◌, sym, Text, Bool, true, false, Option, none, some, Result, ok, err, ◌≡◌, ◌↔◌, refl,
  subst, All, Passes, first_failed-none, none-first_failed, arith,
}
use incuse.Config.Validity.{Given, given, of_Given}
use incuse.Runner.{Release, CloudInitSpec}
use incuse.Runner.CloudInit.Template.{cloud_init_template, cloud_init_baked_template}
use incuse.Runner.CloudInit.Execute.{lines_text, execute}
use incuse.Runner.CloudInit.{
  CloudInitError, Rendered, incomplete, not_rendered, no_jit_config, no_runner_name, no_version,
  no_download_url, no_sha256, no_work_folder, template_for, release_checks, spec_checks, spec_error,
  rendered, executed, render_checked, render,
}

-- What the template needs: a baked image has the rest.
abbrev pub IsComplete : CloudInitSpec → Type 0
IsComplete s =
    Given s.jit_config
    × Given s.runner_name
    × (s.baked ≡ false
        → Given s.release.version
          × Given s.release.download_url
          × Given s.release.sha256
          × Given s.work_folder)

release-Given :
    (s : CloudInitSpec)
    → All Passes (release_checks false s)
    → Given s.release.version
      × Given s.release.download_url
      × Given s.release.sha256
      × Given s.work_folder
unfolding release_checks
release-Given s (v, (u, (h, (w, _)))) = (
  given s.release.version v,
  given s.release.download_url u,
  given s.release.sha256 h,
  given s.work_folder w,
)

Given-release :
    (s : CloudInitSpec) (b : Bool)
    → (b ≡ false
        → Given s.release.version
          × Given s.release.download_url
          × Given s.release.sha256
          × Given s.work_folder)
    → All Passes (release_checks b s)
unfolding release_checks
Given-release s true h = tt
Given-release s false h =
    let (v, u, x, w) = h refl in
    (
      of_Given s.release.version v,
      (
        of_Given s.release.download_url u,
        (of_Given s.release.sha256 x, (of_Given s.work_folder w, tt)),
      ),
    )

spec_error-IsComplete : (s : CloudInitSpec) → spec_error s ≡ none → IsComplete s
unfolding spec_error spec_checks
spec_error-IsComplete s h =
    let (j, (n, r)) = none-first_failed (spec_checks s) h in
    (
      given s.jit_config j,
      given s.runner_name n,
      (λ b. release-Given s (subst (λ z. All Passes (release_checks z s)) b r)),
    )

IsComplete-spec_error : (s : CloudInitSpec) → IsComplete s → spec_error s ≡ none
unfolding spec_error spec_checks
IsComplete-spec_error s (j, n, r) =
    first_failed-none (spec_checks s)
      (of_Given s.jit_config j, (of_Given s.runner_name n, Given-release s s.baked r))

executed-ok : (r : Result Text) (t : Text) → executed r ≡ rendered t → r ≡ ok t
unfolding executed
executed-ok (ok u) t h = ground arith
executed-ok (err e) t h = ground arith

checked-ok :
    (s : CloudInitSpec) (o : Option CloudInitError) (t : Text)
    → render_checked s o ≡ rendered t
    → (o ≡ none) × (ok (lines_text s (template_for s.baked)) ≡ ok t)
unfolding render_checked execute
checked-ok s (some e) t h = ground arith
checked-ok s none t h = (refl, executed-ok (execute (template_for s.baked) s) t h)

pub rendered_iff :
    (s : CloudInitSpec) (t : Text)
    → (render s ≡ rendered t) ↔ (IsComplete s × (lines_text s (template_for s.baked) ≡ t))
unfolding render render_checked executed execute
rendered_iff s t = (
  (λ h.
      let (o, x) = checked-ok s (spec_error s) t h in
      (spec_error-IsComplete s o, ground (arith, x))),
  (λ (c, x). rw (IsComplete-spec_error s c, x) refl),
)

-- The field that an error names is the first of those that are needed and not given.
abbrev pub IsFirstMissing : CloudInitSpec → CloudInitError → Type 0
IsFirstMissing s no_jit_config = s.jit_config ≡ []
IsFirstMissing s no_runner_name = Given s.jit_config × (s.runner_name ≡ [])
IsFirstMissing s no_version =
    Given s.jit_config × Given s.runner_name × (s.baked ≡ false) × (s.release.version ≡ [])
IsFirstMissing s no_download_url =
    Given s.jit_config
    × Given s.runner_name
    × (s.baked ≡ false)
    × Given s.release.version
    × (s.release.download_url ≡ [])
IsFirstMissing s no_sha256 =
    Given s.jit_config
    × Given s.runner_name
    × (s.baked ≡ false)
    × Given s.release.version
    × Given s.release.download_url
    × (s.release.sha256 ≡ [])
IsFirstMissing s no_work_folder =
    Given s.jit_config
    × Given s.runner_name
    × (s.baked ≡ false)
    × Given s.release.version
    × Given s.release.download_url
    × Given s.release.sha256
    × (s.work_folder ≡ [])

-- A payload of the baked template for a baked image and of the other one for a plain image, or the
-- error of a field, and no error of the template.
abbrev pub Explains : CloudInitSpec → Rendered → Type 0
Explains s (rendered t) =
    IsComplete s
    × (s.baked ≡ true → t ≡ lines_text s cloud_init_baked_template)
    × (s.baked ≡ false → t ≡ lines_text s cloud_init_template)
Explains s (incomplete e) = IsFirstMissing s e
Explains s (not_rendered e) = ⊥

cons-Given : (c : ℕ) (t : Text) → Given (c ∷ t)
cons-Given c t e = cc

true-false : true ≡ false → ⊥
true-false e = ground arith

module _ (container : Bool) where
  abbrev made : Text → Text → Bool → Release → Text → CloudInitSpec
  made jit name baked release folder = record {
    release = release;
    jit_config = jit;
    work_folder = folder;
    runner_name = name;
    baked = baked;
    container = container;
  }

  abbrev release : Text → Text → Text → Release
  release version url sha256 = record { version = version; download_url = url; sha256 = sha256 }

  made-Explains :
      (jit name : Text) (baked : Bool) (version url sha256 folder : Text)
      → Explains
          (made jit name baked (release version url sha256) folder)
          (render (made jit name baked (release version url sha256) folder))
  unfolding render render_checked spec_error spec_checks release_checks executed execute
      template_for
  made-Explains [] name baked version url sha256 folder = refl
  made-Explains (j ∷ jit) [] baked version url sha256 folder = (cons-Given j jit, refl)
  made-Explains (j ∷ jit) (n ∷ name) true version url sha256 folder = (
    (cons-Given j jit, cons-Given n name, (λ e. absurd (true-false e))),
    (λ e. refl),
    (λ e. absurd (true-false e)),
  )
  made-Explains (j ∷ jit) (n ∷ name) false [] url sha256 folder =
      (cons-Given j jit, cons-Given n name, refl, refl)
  made-Explains (j ∷ jit) (n ∷ name) false (v ∷ version) [] sha256 folder =
      (cons-Given j jit, cons-Given n name, refl, cons-Given v version, refl)
  made-Explains (j ∷ jit) (n ∷ name) false (v ∷ version) (u ∷ url) [] folder =
      (cons-Given j jit, cons-Given n name, refl, cons-Given v version, cons-Given u url, refl)
  made-Explains (j ∷ jit) (n ∷ name) false (v ∷ version) (u ∷ url) (h ∷ sha256) [] = (
    cons-Given j jit,
    cons-Given n name,
    refl,
    cons-Given v version,
    cons-Given u url,
    cons-Given h sha256,
    refl,
  )
  made-Explains (j ∷ jit) (n ∷ name) false (v ∷ version) (u ∷ url) (h ∷ sha256) (w ∷ folder) = (
    (
      cons-Given j jit,
      cons-Given n name,
      (λ e. (cons-Given v version, cons-Given u url, cons-Given h sha256, cons-Given w folder)),
    ),
    (λ e. absurd (true-false (sym e))),
    (λ e. refl),
  )

-- Whatever its input, Render ends in one of two ways: the input is complete, and it returns the baked
-- template for a baked image and the other one for a plain image, with the fields filled in; or a
-- field that is needed is not given, and the error names the first of these, in the order JIT
-- configuration, runner name and, for a plain image, version, URL and digest of the release, work
-- folder. An error of the template itself does not come about.
pub render-Explains : (s : CloudInitSpec) → Explains s (render s)
render-Explains s =
    made-Explains s.container s.jit_config s.runner_name s.baked s.release.version
      s.release.download_url s.release.sha256 s.work_folder
