-- ===== src/Runner/Resolver/Digest.antt =====
-- The release that internal/runner/resolver.go chooses from an answer of GitHub, with its digest.
use mathlib.Core.List.{reverse-append, reverse-reverse}
use incuse.Base.{
  reverse, has_prefix, to_lower, ◌==◌, eq_of_true, nat_eqb, Text, codes, text_eq, is_empty,
  byte_len, all_of, has_suffix, cut_prefix, trim_prefix, true, false, not, ◌&&◌, Option, none, some,
  ok, List, [], ◌∷◌, ◌++◌, ◌≡◌, ◌⊎◌, inl, inr, refl, ap, sym, ◌∙◌, subst, Bool-cases, arith,
}
use incuse.Runner.{Release}
use incuse.Runner.Resolver.{
  Asset, Response, FetchError, missing_tag, unsupported_arch, missing_digest, invalid_digest, found,
  refused, release_arch, is_hex, check_digest, tarball, pick_asset, asset_for, fetch, CachedRelease,
}

-- A member of a list.
abbrev pub Among : Asset → List Asset → Type 0
Among a [] = ⊥
Among a (b ∷ bs) = (a ≡ b) ⊎ Among a bs

-- A release with the URL of an asset of the answer, the digest that GitHub gives for it, 64
-- hexadecimal digits, and the version of the answer's tag.
pub record IsFrom (body : Response) (r : Release) : Type 0 where
  pub asset : Asset
  pub listed : Among asset body.assets
  pub version : r.version ≡ trim_prefix body.tag_name (codes "v")
  pub url : r.download_url ≡ asset.download_url
  pub url_given : is_empty r.download_url ≡ false
  pub digest : asset.digest ≡ codes "sha256:" ++ r.sha256
  pub digest_len : byte_len r.sha256 ≡ 64
  pub digest_hex : all_of is_hex r.sha256 ≡ true

cut_prefix-append : (s p r : Text) → cut_prefix s p ≡ some r → s ≡ p ++ r
unfolding cut_prefix
cut_prefix-append s [] r h = ground arith
cut_prefix-append [] (d ∷ p) r h = cc
cut_prefix-append (c ∷ s) (d ∷ p) r h = ground (arith, cut_prefix-append s p r)

abbrev Digest : Text → Text → Asset → Option Text → Release → Type 0
Digest version url a cut r =
    (r.version ≡ version)
    × (r.download_url ≡ url)
    × (cut ≡ some r.sha256)
    × (byte_len r.sha256 ≡ 64)
    × (all_of is_hex r.sha256 ≡ true)

found-eq : (r s : Release) → found r ≡ found s → r ≡ s
found-eq r s h = cc

pub none-some : (c : CachedRelease) → none ≡ some c → ⊥
none-some c h = ground arith

pub some-eq : (c d : CachedRelease) → some c ≡ some d → c ≡ d
some-eq c d h = cc

pub refused-found : (e : FetchError) (r : Release) → refused e ≡ found r → ⊥
refused-found e r h = ground arith

check_digest-lem :
    (version : Text) (a : Asset) (cut : Option Text) (r : Release)
    → check_digest version a cut ≡ found r
    → Digest version a.download_url a cut r
unfolding check_digest
check_digest-lem version a none r h = cc
check_digest-lem version a (some d) r h = elim (Bool-cases (nat_eqb (byte_len d) 64)) [
  | inr e ↦
      let bad : check_digest version a (some d) ≡ refused (missing_digest a.name) = rw e refl in
      absurd (refused-found (missing_digest a.name) r (sym bad ∙ h))
  | inl e ↦ elim (Bool-cases (all_of is_hex d)) [
    | inr x ↦
        let bad : check_digest version a (some d) ≡ refused (invalid_digest a.name) =
          rw (e, x) refl in
        absurd (refused-found (invalid_digest a.name) r (sym bad ∙ h))
    | inl x ↦
        let made : Release = record {
          version = version;
          download_url = a.download_url;
          sha256 = d;
        } in
        let good : check_digest version a (some d) ≡ found made = rw (e, x) refl in
        subst (λ z. Digest version a.download_url a (some d) z) (found-eq made r (sym good ∙ h))
          (refl, refl, refl, ground arith, x)
  ]
]

-- What a choice of the loop says.
abbrev Picked : Text → Text → List Asset → Release → Type 0
Picked version want all r =
    (a : Asset) × Among a all
    × (has_suffix a.name want ≡ true)
    × (is_empty a.download_url ≡ false)
    × Digest version a.download_url a (cut_prefix a.digest (codes "sha256:")) r

pick_asset-Picked :
    (arch tag version want : Text) (as1 : List Asset) (r : Release)
    → pick_asset arch tag version want as1 ≡ found r
    → Picked version want as1 r
unfolding pick_asset
pick_asset-Picked arch tag version want [] r h = cc
pick_asset-Picked arch tag version want (a ∷ others) r h =
    elim (Bool-cases (has_suffix a.name want && not (is_empty a.download_url))) [
      | inl e ↦
          let cut = cut_prefix a.digest (codes "sha256:") in
          let here : pick_asset arch tag version want (a ∷ others) ≡ check_digest version a cut =
            rw e refl in
          (a, inl refl, ground arith, ground arith, check_digest-lem version a cut r (sym here ∙ h))
      | inr e ↦
          let there : pick_asset arch tag version want (a ∷ others)
              ≡ pick_asset arch tag version want others =
            rw e refl in
          let (b, m, n, u, d) = pick_asset-Picked arch tag version want others r (sym there ∙ h) in
          (b, inr m, n, u, d)
    ]

has_prefix-append : (s p : Text) → has_prefix s p ≡ true → (r : Text) × (s ≡ p ++ r)
unfolding has_prefix
has_prefix-append s [] h = (s, refl)
has_prefix-append [] (d ∷ p) h = absurd (ground arith)
has_prefix-append (c ∷ s) (d ∷ p) h =
    let (r, e) = has_prefix-append s p (ground arith) in
    let same : c ≡ d = ground arith in (r, ap (λ z. c ∷ z) e ∙ ap (λ z. z ∷ (p ++ r)) same)

has_suffix-append : (s p : Text) → has_suffix s p ≡ true → (b : Text) × (s ≡ b ++ p)
unfolding has_suffix
has_suffix-append s p h =
    let (r, e) = has_prefix-append (reverse s) (reverse p) h in
    (
      reverse r,
      sym (reverse-reverse s)
          ∙ (ap reverse e
              ∙ (reverse-append (reverse p) r ∙ ap (λ z. reverse r ++ z) (reverse-reverse p))),
    )

-- The name of an architecture in the names of the runner's assets.
abbrev pub IsArch : Text → Text → Type 0
IsArch arch a =
    ((to_lower arch ≡ codes "amd64") × (a ≡ codes "x64"))
    ⊎ ((to_lower arch ≡ codes "arm64") × (a ≡ codes "arm64"))

-- The asset is that of Linux, the architecture and the version of the release.
pub record IsReleaseFor (arch : Text) (body : Response) (r : Release) : Type 0 where
  pub from : IsFrom body r
  pub runner_arch : Text
  pub is_arch : IsArch arch runner_arch
  pub before : Text
  pub named :
      from.asset.name
      ≡ before ++ (codes "linux-" ++ (runner_arch ++ (codes "-" ++ (r.version ++ codes ".tar.gz"))))

release_arch-IsArch : (arch a : Text) → release_arch arch ≡ some a → IsArch arch a
unfolding release_arch
release_arch-IsArch arch a h = elim (Bool-cases (to_lower arch == codes "amd64")) [
  | inl x ↦
      let hit : release_arch arch ≡ some (codes "x64") = rw x refl in
      inl (eq_of_true (to_lower arch) (codes "amd64") x, text-eq a (codes "x64") (sym h ∙ hit))
  | inr x ↦ elim (Bool-cases (to_lower arch == codes "arm64")) [
    | inl y ↦
        let hit : release_arch arch ≡ some (codes "arm64") = rw (x, y) refl in
        inr (eq_of_true (to_lower arch) (codes "arm64") y, text-eq a (codes "arm64") (sym h ∙ hit))
    | inr y ↦
        let miss : release_arch arch ≡ none = rw (x, y) refl in absurd (no-text a (sym miss ∙ h))
  ]
]
  where
    text-eq : (a b : Text) → some a ≡ some b → a ≡ b
    text-eq a b h = cc

    no-text : (a : Text) → none ≡ some a → ⊥
    no-text a h = ground arith

asset_for-IsReleaseFor :
    (arch : Text) (body : Response) (o : Option Text) (r : Release)
    → release_arch arch ≡ o
    → asset_for arch body o ≡ found r
    → IsReleaseFor arch body r
unfolding asset_for
asset_for-IsReleaseFor arch body none r e h = absurd (refused-found (unsupported_arch arch) r h)
asset_for-IsReleaseFor arch body (some runner_arch) r e h =
    let tag = trim_prefix body.tag_name (codes "v") in
    let (a, m, n, u, (v, l, c, len, x)) =
      pick_asset-Picked runner_arch body.tag_name tag (tarball runner_arch tag) body.assets r h in
    let (before, named) = has_suffix-append a.name (tarball runner_arch tag) n in
    record {
      from = record {
        asset = a;
        listed = m;
        version = v;
        url = l;
        url_given = ap is_empty l ∙ u;
        digest = cut_prefix-append a.digest (codes "sha256:") r.sha256 c;
        digest_len = len;
        digest_hex = x;
      };
      runner_arch = runner_arch;
      is_arch = release_arch-IsArch arch runner_arch e;
      before = before;
      named = named ∙ ap (λ z. before ++ tarball runner_arch z) (sym v);
    }

-- Whatever is found in an answer of GitHub is one of its assets, that of the architecture and the
-- version of the tag, with its digest.
pub fetch-IsReleaseFor :
    (arch : Text) (body : Response) (r : Release)
    → fetch arch (ok body) ≡ found r
    → IsReleaseFor arch body r
unfolding fetch
fetch-IsReleaseFor arch body r h = elim (Bool-cases (is_empty body.tag_name)) [
  | inl e ↦
      let bad : fetch arch (ok body) ≡ refused missing_tag = rw e refl in
      absurd (refused-found missing_tag r (sym bad ∙ h))
  | inr e ↦
      let good : fetch arch (ok body) ≡ asset_for arch body (release_arch arch) = rw e refl in
      asset_for-IsReleaseFor arch body (release_arch arch) r refl (sym good ∙ h)
]

pub fetch-IsFrom :
    (arch : Text) (body : Response) (r : Release) → fetch arch (ok body) ≡ found r → IsFrom body r
fetch-IsFrom arch body r h = (fetch-IsReleaseFor arch body r h).from
