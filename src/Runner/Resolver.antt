-- ===== src/Runner/Resolver.antt =====
-- internal/runner/resolver.go: the choice of a release from GitHub's answer, and the cache. The
-- request and the decoder are libraries: what they answer is a parameter.
pub mod Digest
pub mod Cached
mod Tests
use mathlib.Core.Option
use incuse.Base.{
  ℕ, ℤ, pos, ◌-ℤ◌, ltb_ℤ, nat_eqb, leb, Text, codes, text_eq, ◌==◌, to_lower, is_empty, byte_len,
  length, all_of, has_suffix, cut_prefix, trim_prefix, Bool, true, false, not, ◌&&◌, ◌||◌, Option,
  none, some, Result, ok, err, List, [], ◌∷◌, ◌++◌, if◌then◌else◌,
}
use incuse.Base.Dict
use incuse.Base.Dict.{Dict}
use incuse.Runner.{Release}

pub record Asset : Type 0 where
  pub name : Text
  pub download_url : Text
  pub digest : Text

pub record Response : Type 0 where
  pub tag_name : Text
  pub assets : List Asset

-- An error of the request or the decoder is its text.
pub data FetchError : Type 0 where
  request_failed : Text → FetchError
  missing_tag : FetchError
  unsupported_arch : Text → FetchError
  missing_digest invalid_digest : Text → FetchError
  no_asset : Text → Text → FetchError

pub data Fetched : Type 0 where
  found : Release → Fetched
  refused : FetchError → Fetched

unfoldable pub release_arch : Text → Option Text
release_arch arch =
    if to_lower arch == codes "amd64"
    then some (codes "x64")
    else if to_lower arch == codes "arm64"
    then some (codes "arm64")
    else none

-- A digit of `hex.DecodeString`
abbrev pub is_hex : ℕ → Bool
is_hex c = (leb b'0' c && leb c b'9') || (leb b'a' c && leb c b'f') || (leb b'A' c && leb c b'F')

-- The asset that was chosen, over what follows `sha256:` in its digest.
unfoldable pub check_digest : Text → Asset → Option Text → Fetched
check_digest version a none = refused (missing_digest a.name)
check_digest version a (some digest) =
    if not (nat_eqb (byte_len digest) 64)
    then refused (missing_digest a.name)
    else if not (all_of is_hex digest)
    then refused (invalid_digest a.name)
    else found (record { version = version; download_url = a.download_url; sha256 = digest })

-- The loop: the first asset of the name that has a URL decides.
unfoldable pub pick_asset : Text → Text → Text → Text → List Asset → Fetched
unfolding check_digest has_suffix cut_prefix
pick_asset arch tag version want [] = refused (no_asset arch tag)
pick_asset arch tag version want (a ∷ others) =
    let rest = pick_asset arch tag version want others in
    if has_suffix a.name want && not (is_empty a.download_url)
    then check_digest version a (cut_prefix a.digest (codes "sha256:"))
    else rest

-- `linux-%s-%s.tar.gz`
abbrev pub tarball : Text → Text → Text
tarball runner_arch version =
    codes "linux-" ++ (runner_arch ++ (codes "-" ++ (version ++ codes ".tar.gz")))

unfoldable pub asset_for : Text → Response → Option Text → Fetched
unfolding pick_asset trim_prefix
asset_for arch body none = refused (unsupported_arch arch)
asset_for arch body (some runner_arch) =
    let version = trim_prefix body.tag_name (codes "v") in
    pick_asset runner_arch body.tag_name version (tarball runner_arch version) body.assets

unfoldable pub fetch : Text → Result Response → Fetched
unfolding asset_for release_arch
fetch arch (err e) = refused (request_failed e)
fetch arch (ok body) =
    if is_empty body.tag_name then refused missing_tag else asset_for arch body (release_arch arch)

pub record CachedRelease : Type 0 where
  pub release : Release
  pub stored_at : ℤ

abbrev pub Cache : Type 0
Cache = Dict Text CachedRelease

-- `r.ttl > 0 && time.Since(cached.at) < r.ttl`
unfoldable pub is_fresh : ℤ → ℤ → CachedRelease → Bool
is_fresh ttl now c = ltb_ℤ (pos 0) ttl && ltb_ℤ (now -ℤ c.stored_at) ttl

-- After a fetch: its answer, the entry of the cache, and the time at which the answer is stored.
unfoldable pub after_fetch : ℤ → ℤ → Text → Fetched → Option CachedRelease → Cache → Fetched × Cache
after_fetch ttl later arch (found release) entry cache = (
  found release,
  (if ltb_ℤ (pos 0) ttl
      then Dict.insert arch (record { release = release; stored_at = later }) cache
      else cache),
)
after_fetch ttl later arch (refused e) none cache = (refused e, cache)
after_fetch ttl later arch (refused e) (some c) cache =
    (if ltb_ℤ (pos 0) ttl then found c.release else refused e, cache)

-- Over the entry of the cache.
unfoldable pub resolve_entry :
    ℤ → ℤ → ℤ → Text → Fetched → Option CachedRelease → Cache → Fetched × Cache
unfolding after_fetch is_fresh
resolve_entry ttl now later arch fetched none cache = after_fetch ttl later arch fetched none cache
resolve_entry ttl now later arch fetched (some c) cache =
    if is_fresh ttl now c
    then (found c.release, cache)
    else after_fetch ttl later arch fetched (some c) cache

-- The call runs under the lock, so it is one function of the cache.
unfoldable pub resolve : ℤ → ℤ → ℤ → Text → Fetched → Cache → Fetched × Cache
unfolding resolve_entry
resolve ttl now later arch fetched cache =
    resolve_entry ttl now later arch fetched (Dict.lookup arch cache) cache
