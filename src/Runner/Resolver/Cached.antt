-- ===== src/Runner/Resolver/Cached.antt =====
-- The releases that the cache of internal/runner/resolver.go answers, fresh, kept or stale.
use mathlib.Core.List.{Memᴰ}
use incuse.Base.{
  ℤ, pos, ltb_ℤ, Text, text_eq, ◌==◌, eq_of_true, Bool, true, false, Option, none, some, Result, ok,
  err, List, [], ◌∷◌, ◌≡◌, inl, inr, refl, sym, ◌∙◌, subst, Bool-cases, if◌then◌else◌,
}
use incuse.Base.Dict
use incuse.Runner.{Release}
use incuse.Runner.Resolver.{
  Response, FetchError, request_failed, Fetched, found, refused, fetch, CachedRelease, Cache,
  is_fresh, after_fetch, resolve_entry, resolve,
}
use incuse.Runner.Resolver.Digest.{
  IsReleaseFor, refused-found, none-some, some-eq, fetch-IsReleaseFor,
}

-- A property of the releases that were fetched for an architecture, and one of the errors of a call.
module _ (Good : Text → Release → Type 0) (Bad : FetchError → Type 0) where
  abbrev pub AllGood : Cache → Type 0
  AllGood cache =
      (arch : Text) (c : CachedRelease) → Dict.lookup arch cache ≡ some c → Good arch c.release

  abbrev pub GoodAnswer : Text → Fetched → Type 0
  GoodAnswer arch (found r) = Good arch r
  GoodAnswer arch (refused e) = Bad e

  insert-AllGood :
      (arch : Text) (c : CachedRelease) (cache : Cache)
      → Good arch c.release
      → AllGood cache
      → AllGood (Dict.insert arch c cache)
  insert-AllGood arch c cache g all other d h = elim (Bool-cases (other == arch)) [
    | inl q ↦
        let hit : Dict.lookup other (Dict.insert arch c cache) ≡ some c =
          Dict.lookup-insert other arch c cache ∙ rw q refl in
        subst (λ z. Good z d.release) (sym (eq_of_true other arch q))
          (subst (λ z. Good arch z.release) (some-eq c d (sym hit ∙ h)) g)
    | inr q ↦
        let miss : Dict.lookup other (Dict.insert arch c cache) ≡ Dict.lookup other cache =
          Dict.lookup-insert other arch c cache ∙ rw q refl in
        all other d (sym miss ∙ h)
  ]

  -- The cache is written, and a stale entry is answered, only if there is a time to live.
  kept-AllGood :
      (b : Bool) (after cache : Cache)
      → AllGood after
      → AllGood cache
      → AllGood (if b then after else cache)
  kept-AllGood true after cache h k = h
  kept-AllGood false after cache h k = k

  stale-Good :
      (b : Bool) (arch : Text) (r : Release) (x : FetchError)
      → Good arch r
      → Bad x
      → GoodAnswer arch (if b then found r else refused x)
  stale-Good true arch r x g bad = g
  stale-Good false arch r x g bad = bad

  after_fetch-AllGood :
      (ttl later : ℤ) (arch : Text) (fetched : Fetched) (entry : Option CachedRelease)
      (cache : Cache)
      → Dict.lookup arch cache ≡ entry
      → GoodAnswer arch fetched
      → AllGood cache
      → let (answer, after) = after_fetch ttl later arch fetched entry cache in
        GoodAnswer arch answer × AllGood after
  unfolding after_fetch
  after_fetch-AllGood ttl later arch (found r) entry cache e g all =
      let made : CachedRelease = record { release = r; stored_at = later } in
      (
        g,
        kept-AllGood (ltb_ℤ (pos 0) ttl) (Dict.insert arch made cache) cache
            (insert-AllGood arch made cache g all) all,
      )
  after_fetch-AllGood ttl later arch (refused x) none cache e g all = (g, all)
  after_fetch-AllGood ttl later arch (refused x) (some c) cache e g all =
      (stale-Good (ltb_ℤ (pos 0) ttl) arch c.release x (all arch c e) g, all)

  entry-AllGood :
      (ttl now later : ℤ) (arch : Text) (fetched : Fetched) (entry : Option CachedRelease)
      (cache : Cache)
      → Dict.lookup arch cache ≡ entry
      → GoodAnswer arch fetched
      → AllGood cache
      → let (answer, after) = resolve_entry ttl now later arch fetched entry cache in
        GoodAnswer arch answer × AllGood after
  unfolding resolve_entry
  entry-AllGood ttl now later arch fetched none cache e g all =
      after_fetch-AllGood ttl later arch fetched none cache e g all
  entry-AllGood ttl now later arch fetched (some c) cache e g all =
      elim (Bool-cases (is_fresh ttl now c)) [
        | inl f ↦ rw f (all arch c e, all)
        | inr f ↦ rw f (after_fetch-AllGood ttl later arch fetched (some c) cache e g all)
      ]

-- The answers of Resolve, call after call: each with its time to live, its times, its architecture
-- and the answer of GitHub, or the error of the request.
pub record Request : Type 0 where
  pub ttl : ℤ
  pub now : ℤ
  pub later : ℤ
  pub arch : Text
  pub answer : Result Response

abbrev pub run : List Request → Cache → List Fetched
run [] cache = []
run (q ∷ qs) cache =
    let (answer, after) = resolve q.ttl q.now q.later q.arch (fetch q.arch q.answer) cache in
    answer ∷ run qs after

-- The release is from what GitHub answered to one of the requests, for this architecture.
abbrev pub Verified : List Request → Text → Release → Type 0
Verified past arch r =
    (p : Request) × Memᴰ p past
    × (p.arch ≡ arch)
    × ((body : Response) × (p.answer ≡ ok body) × IsReleaseFor arch body r)

-- The answer of a call, over the requests up to it, the last first: a verified release, or the error
-- of its own request.
abbrev pub IsVerified : Request → List Request → Fetched → Type 0
IsVerified q past (found r) = Verified (q ∷ past) q.arch r
IsVerified q past (refused e) = fetch q.arch q.answer ≡ refused e

-- The answers of the calls, one by one.
abbrev pub AreVerified : List Request → List Request → List Fetched → Type 0
AreVerified past [] [] = Unit
AreVerified past (q ∷ qs) (f ∷ fs) = IsVerified q past f × AreVerified (q ∷ past) qs fs
AreVerified past _ _ = ⊥

abbrev Own : Request → FetchError → Type 0
Own q e = fetch q.arch q.answer ≡ refused e

fetch-Verified :
    (q : Request) (past : List Request) (answer : Result Response) (r : Release)
    → q.answer ≡ answer
    → fetch q.arch answer ≡ found r
    → Verified (q ∷ past) q.arch r
unfolding fetch
fetch-Verified q past (err e) r s h = absurd (refused-found (request_failed e) r h)
fetch-Verified q past (ok body) r s h =
    (q, Memᴰ.head refl, refl, (body, s, fetch-IsReleaseFor q.arch body r h))

found-Good :
    (q : Request) (past : List Request) (f : Fetched)
    → fetch q.arch q.answer ≡ f
    → GoodAnswer (Verified (q ∷ past)) (Own q) q.arch f
found-Good q past (refused e) h = h
found-Good q past (found r) h = fetch-Verified q past q.answer r refl h

older :
    (q : Request) (past : List Request) (cache : Cache)
    → AllGood (Verified past) (Own q) cache
    → AllGood (Verified (q ∷ past)) (Own q) cache
older q past cache all arch c h = let (p, m, a, b) = all arch c h in (p, Memᴰ.tail m, a, b)

resolve-AllGood :
    (q : Request) (past : List Request) (cache : Cache)
    → AllGood (Verified (q ∷ past)) (Own q) cache
    → let (answer, after) = resolve q.ttl q.now q.later q.arch (fetch q.arch q.answer) cache in
      GoodAnswer (Verified (q ∷ past)) (Own q) q.arch answer
      × AllGood (Verified (q ∷ past)) (Own q) after
unfolding resolve
resolve-AllGood q past cache all =
    let fetched = fetch q.arch q.answer in
    entry-AllGood (Verified (q ∷ past)) (Own q) q.ttl q.now q.later q.arch fetched
      (Dict.lookup q.arch cache) cache refl (found-Good q past fetched refl) all

answer-IsVerified :
    (q : Request) (past : List Request) (f : Fetched)
    → GoodAnswer (Verified (q ∷ past)) (Own q) q.arch f
    → IsVerified q past f
answer-IsVerified q past (refused e) h = h
answer-IsVerified q past (found r) h = h

run-AllGood :
    (qs past : List Request) (cache : Cache)
    → ((arch : Text) (c : CachedRelease)
        → Dict.lookup arch cache ≡ some c
        → Verified past arch c.release)
    → AreVerified past qs (run qs cache)
run-AllGood [] past cache all = tt
run-AllGood (q ∷ qs) past cache all =
    let (good, rest) = resolve-AllGood q past cache (older q past cache all) in
    let (answer, after) = resolve q.ttl q.now q.later q.arch (fetch q.arch q.answer) cache in
    (answer-IsVerified q past answer good, run-AllGood qs (q ∷ past) after rest)

-- Whatever sequence of calls is made of a new resolver, and whatever GitHub answers or fails to
-- answer: each call returns a release, be it fresh, cached or stale, that is from what GitHub answered
-- to this or an earlier call of the sequence for the same architecture: its version is that of the
-- tag, its URL and digest, 64 hexadecimal digits, are those of a listed asset, and the asset's name
-- ends with Linux, the architecture and the version; or the call fails with the error of its own
-- request.
pub run-AreVerified : (qs : List Request) → AreVerified [] qs (run qs [])
run-AreVerified qs =
    run-AllGood qs [] [] (λ arch c h. absurd (none-some c (sym (Dict.lookup-nil arch) ∙ h)))
