-- ===== src/Runner/CloudInit/Payload.antt =====
-- What a machine reads from the payload that internal/runner/cloudinit.go renders.
use mathlib.Core.List.{append-nil}
use incuse.Base.{
  Text, codes, cut_prefix, Bool, true, false, List, [], ◌∷◌, ◌++◌, ◌≡◌, refl, subst, sym,
  if◌then◌else◌, arith,
}
use incuse.Runner.{Release, CloudInitSpec}
use incuse.Runner.CloudInit.{template_for, rendered, render}
use incuse.Runner.CloudInit.Template.{cloud_init_template, cloud_init_baked_template}
use incuse.Runner.CloudInit.Execute.{lines_text, pieces_text}
use incuse.Runner.CloudInit.Lines.{
  is_one_line, split_lines, values_of, filled, fields, piece_fields, lines_are_plain, are_plain,
  split-lines_text, Fits,
}
use incuse.Runner.CloudInit.Laws.{IsComplete, rendered_iff}

-- On a plain image: the work folder that is made, the download with its check, and Docker, unless
-- the machine is a container.
pub record Installs (s : CloudInitSpec) (lines : List Text) : Type 0 where
  pub folder :
      values_of (codes "  - install -d -o runner -g runner -m 0755 /opt/runner /opt/runner/") lines
      ≡ s.work_folder ∷ []
  pub download :
      values_of (codes "  - curl -fsSL \"") lines
      ≡ (s.release.download_url ++ codes "\" -o /tmp/runner.tgz") ∷ []
  pub digest_check :
      values_of (codes "  - echo \"") lines
      ≡ (s.release.sha256 ++ codes "  /tmp/runner.tgz\" | sha256sum --check -") ∷ []
  pub docker : values_of (codes "  - docker.io") lines ≡ (if s.container then [] else [] ∷ [])
  pub groups :
      values_of (codes "    groups: ") lines
      ≡ codes (if s.container then "[sudo]" else "[sudo, docker]") ∷ []

-- Host name and JIT configuration stand on one line each.
pub record Delivers (s : CloudInitSpec) (lines : List Text) : Type 0 where
  pub hostname : values_of (codes "hostname: ") lines ≡ s.runner_name ∷ []
  pub jit : values_of (codes "      INCUSE_JIT=") lines ≡ s.jit_config ∷ []
  pub installs : s.baked ≡ false → Installs s lines

module _ (r : Release) (jit folder name : Text) where
  abbrev spec : Bool → Bool → CloudInitSpec
  spec baked container = record {
    release = r;
    jit_config = jit;
    work_folder = folder;
    runner_name = name;
    baked = baked;
    container = container;
  }

  installed :
      (container : Bool)
      → Installs (spec false container) (filled (spec false container) cloud_init_template)
  unfolding filled pieces_text values_of cut_prefix cloud_init_template
  installed true = record {
    folder = rw (append-nil folder) refl;
    download = refl;
    digest_check = refl;
    docker = refl;
    groups = refl;
  }
  installed false = record {
    folder = rw (append-nil folder) refl;
    download = refl;
    digest_check = refl;
    docker = refl;
    groups = refl;
  }

  delivered :
      (baked container : Bool)
      → Delivers (spec baked container) (filled (spec baked container) (template_for baked))
  unfolding filled pieces_text values_of cut_prefix template_for cloud_init_template
      cloud_init_baked_template
  delivered true container = record {
    hostname = rw (append-nil name) refl;
    jit = rw (append-nil jit) refl;
    installs = λ e. ground arith;
  }
  delivered false true = record {
    hostname = rw (append-nil name) refl;
    jit = rw (append-nil jit) refl;
    installs = λ _. installed true;
  }
  delivered false false = record {
    hostname = rw (append-nil name) refl;
    jit = rw (append-nil jit) refl;
    installs = λ _. installed false;
  }

templates_are_plain : (baked : Bool) → lines_are_plain (template_for baked) ≡ true
unfolding lines_are_plain are_plain is_one_line template_for cloud_init_template
    cloud_init_baked_template
templates_are_plain true = refl
templates_are_plain false = refl

-- The values that the template of an image prints break no line.
abbrev pub AreOneLine : CloudInitSpec → Type 0
AreOneLine s =
    (is_one_line s.runner_name ≡ true)
    × (is_one_line s.jit_config ≡ true)
    × (s.baked ≡ false
        → (is_one_line s.work_folder ≡ true)
          × (is_one_line s.release.download_url ≡ true)
          × (is_one_line s.release.sha256 ≡ true))

fields-Fits :
    (s : CloudInitSpec) (baked : Bool)
    → s.baked ≡ baked
    → AreOneLine s
    → Fits s (fields (template_for baked))
unfolding fields piece_fields template_for cloud_init_template cloud_init_baked_template
fields-Fits s true e (n, j, r) = (n, (j, tt))
fields-Fits s false e (n, j, r) = let (w, u, h) = r e in (n, (j, (w, (u, (h, tt)))))

-- Whatever complete input Render is given, if no value that its template prints has a line break,
-- it returns a payload in which one line has the runner's name as the host name and one line the
-- JIT configuration; and where the image is not baked, one line each makes the work folder,
-- downloads the release and checks its digest, with the values that were given and nothing else,
-- and Docker is installed, and its group joined, unless the machine is a container.
pub payload-Delivers :
    (s : CloudInitSpec)
    → IsComplete s
    → AreOneLine s
    → (t : Text) × (render s ≡ rendered t) × Delivers s (split_lines t)
payload-Delivers s complete one =
    let t = lines_text s (template_for s.baked) in
    let lines =
      split-lines_text s (template_for s.baked) (templates_are_plain s.baked)
        (fields-Fits s s.baked refl one) in
    (
      t,
      (rendered_iff s t).1 (complete, refl),
      subst (Delivers s) (sym lines)
          (delivered s.release s.jit_config s.work_folder s.runner_name s.baked s.container),
    )
