-- ===== src/Config/Validity/Classes.antt =====
-- The loop of `Validate` in internal/config/config.go over the runner classes.
use incuse.Base.{
  ℕ, suc, ltb, length, int_eq, Text, text_eq, Bool, true, false, List, [], ◌∷◌, ◌≡◌, ◌≢◌, ◌⊎◌, refl,
  arith, contains, All, All-append, All-parts, Nodup, Fresh, Fresh-Nodup, Nodup-Fresh, Passes,
  subst, sym, ◌∙◌,
}
use incuse.Config.{RunnerClassConfig, ScaleSetsConfig, arch_amd64, arch_arm64}
use incuse.Config.Labels.{scale_set_name}
use incuse.Config.Validate.{class_checks, first_arch, classes_checks, scale_sets_checks}
use incuse.Config.Validity.{IsClass, OneArch, class_names, AreScaleSets, positive, of_Positive}

-- One round of the loop and the rest of what it asks for.
module _ (prefix : Text) (baked : Bool) (i : ℕ) (seen : List Text) (a : Text)
    (c : RunnerClassConfig) where
  abbrev name : Text
  name = scale_set_name c prefix

  class_checks-lem :
      All Passes (class_checks prefix baked i seen a c)
      → IsClass prefix c × (contains seen name ≡ false) × (baked ≡ true → c.arch ≡ a)
  unfolding class_checks
  class_checks-lem (v, (m, (d, (x, (r, (l, (u, (o, _)))))))) = (
    record {
      vcpus = positive c.vcpus v;
      memory = positive c.memory_gib m;
      disk = positive c.disk_gib d;
      max_runners = positive c.max_runners x;
      arch = ground arith;
      short = ground arith;
    },
    ground arith,
    (λ b. ground arith),
  )

  lem-class_checks :
      IsClass prefix c
      → contains seen name ≡ false
      → (baked ≡ true → c.arch ≡ a)
      → All Passes (class_checks prefix baked i seen a c)
  unfolding class_checks
  lem-class_checks k u o =
      let v = of_Positive c.vcpus k.vcpus in
      let m = of_Positive c.memory_gib k.memory in
      let d = of_Positive c.disk_gib k.disk in
      let x = of_Positive c.max_runners k.max_runners in
      let r = k.arch in
      let l = k.short in
      (v, (m, (d, (x, (ground arith, (ground arith, (ground arith, (ground arith, tt))))))))

abbrev Loop : Text → Bool → List Text → Text → List RunnerClassConfig → Type 0
Loop prefix baked seen a cs =
    All (IsClass prefix) cs
    × Fresh seen (class_names prefix cs)
    × (baked ≡ true → All (λ c. c.arch ≡ a) cs)

-- The loop once the architecture of the first class is known.
classes_checks-Loop :
    (prefix : Text) (baked : Bool) (i : ℕ) (seen : List Text) (a : ℕ) (s : Text)
    (cs : List RunnerClassConfig)
    → All Passes (classes_checks prefix baked i seen (a ∷ s) cs)
    → Loop prefix baked seen (a ∷ s) cs
unfolding classes_checks first_arch
classes_checks-Loop prefix baked i seen a s [] h = (tt, tt, (λ b. tt))
classes_checks-Loop prefix baked i seen a s (c ∷ cs) h =
    let (now, later) = All-parts Passes (class_checks prefix baked i seen (a ∷ s) c) _ h in
    let (k, u, o) = class_checks-lem prefix baked i seen (a ∷ s) c now in
    let (ks, us, os) =
      classes_checks-Loop prefix baked (suc i) (scale_set_name c prefix ∷ seen) a s cs later in
    ((k, ks), (u, us), (λ b. (o b, os b)))

Loop-classes_checks :
    (prefix : Text) (baked : Bool) (i : ℕ) (seen : List Text) (a : ℕ) (s : Text)
    (cs : List RunnerClassConfig)
    → Loop prefix baked seen (a ∷ s) cs
    → All Passes (classes_checks prefix baked i seen (a ∷ s) cs)
unfolding classes_checks first_arch
Loop-classes_checks prefix baked i seen a s [] h = tt
Loop-classes_checks prefix baked i seen a s (c ∷ cs) (ks, us, os) =
    All-append Passes (class_checks prefix baked i seen (a ∷ s) c) _
      (lem-class_checks prefix baked i seen (a ∷ s) c ks.0 us.0 (λ b. (os b).0))
      (Loop-classes_checks prefix baked (suc i) (scale_set_name c prefix ∷ seen) a s cs
        (ks.1, us.1, (λ b. (os b).1)))

-- A known architecture is not the empty text.
arch-cons : (a : Text) → (a ≡ arch_amd64) ⊎ (a ≡ arch_arm64) → (c : ℕ) × (s : Text) × (a ≡ c ∷ s)
arch-cons [] h = ground arith
arch-cons (c ∷ s) h = (c, s, refl)

module _ (prefix : Text) (baked : Bool) where
  abbrev AllChecks : Text → List Text → ℕ → List RunnerClassConfig → Type 0
  AllChecks a seen i cs = All Passes (classes_checks prefix baked i seen a cs)

  first-lem :
      (cs : List RunnerClassConfig)
      → All Passes (classes_checks prefix baked 0 [] [] cs)
      → All (IsClass prefix) cs × Nodup (class_names prefix cs) × (baked ≡ true → OneArch cs)
  unfolding classes_checks first_arch
  first-lem [] h = (tt, tt, (λ b. ([], tt)))
  first-lem (c ∷ cs) h =
      let name = scale_set_name c prefix in
      let (now, later) = All-parts Passes (class_checks prefix baked 0 [] c.arch c) _ h in
      let (k, u, o) = class_checks-lem prefix baked 0 [] c.arch c now in
      let (a, s, e) = arch-cons c.arch k.arch in
      let later' = subst (λ z. AllChecks z (name ∷ []) 1 cs) e later in
      let (ks, us, os) = classes_checks-Loop prefix baked 1 (name ∷ []) a s cs later' in
      ((k, ks), Fresh-Nodup (class_names prefix (c ∷ cs)) (u, us), (λ b. (a ∷ s, (e, os b))))

  lem-first :
      (cs : List RunnerClassConfig)
      → All (IsClass prefix) cs
      → Nodup (class_names prefix cs)
      → (baked ≡ true → OneArch cs)
      → All Passes (classes_checks prefix baked 0 [] [] cs)
  unfolding classes_checks first_arch
  lem-first [] ks n o = tt
  lem-first (c ∷ cs) (k, ks) n o =
      let name = scale_set_name c prefix in
      let (a, s, e) = arch-cons c.arch k.arch in
      let (u, us) = Nodup-Fresh (class_names prefix (c ∷ cs)) n in
      let same =
        λ (b : baked ≡ true). subst (λ z. All (λ d. d.arch ≡ z) cs) (sym (o b).1.0 ∙ e) (o b).1.1 in
      let later = Loop-classes_checks prefix baked 1 (name ∷ []) a s cs (ks, us, same) in
      All-append Passes (class_checks prefix baked 0 [] c.arch c) _
        (lem-class_checks prefix baked 0 [] c.arch c k u (λ b. refl))
        (subst (λ z. AllChecks z (name ∷ []) 1 cs) (sym e) later)

some-length : (cs : List RunnerClassConfig) → ltb 0 (length cs) ≡ true → cs ≢ []
some-length [] h = ground arith
some-length (c ∷ cs) h = λ e. cc

length-some : (cs : List RunnerClassConfig) → cs ≢ [] → ltb 0 (length cs) ≡ true
length-some [] h = absurd (h refl)
length-some (c ∷ cs) h = ground arith

pub scale_sets-AreScaleSets :
    (c : ScaleSetsConfig) (baked : Bool)
    → All Passes (scale_sets_checks c baked)
    → AreScaleSets baked c
unfolding scale_sets_checks
scale_sets-AreScaleSets c baked (p, (n, h)) =
    let (ks, d, o) = first-lem c.prefix baked c.classes h in
    record {
      prefix = p;
      some_class = some-length c.classes n;
      classes = ks;
      distinct = d;
      one_arch = o;
    }

pub AreScaleSets-scale_sets :
    (c : ScaleSetsConfig) (baked : Bool)
    → AreScaleSets baked c
    → All Passes (scale_sets_checks c baked)
unfolding scale_sets_checks
AreScaleSets-scale_sets c baked h = (
  h.prefix,
  (
    length-some c.classes h.some_class,
    lem-first c.prefix baked c.classes h.classes h.distinct h.one_arch,
  ),
)
