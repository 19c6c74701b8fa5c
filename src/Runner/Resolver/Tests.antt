-- ===== src/Runner/Resolver/Tests.antt =====
-- The theorems about internal/runner/resolver.go at concrete answers of GitHub.
use incuse.Base.{
  pos, Text, codes, text_eq, replicate, ok, err, List, [], ◌∷◌, ◌++◌, ◌≡◌, refl, lower_rune, ◌-ℤ◌,
}
use incuse.Base.Dict
use incuse.Runner.Resolver.{Response, found, fetch, resolve}
use incuse.Runner.Resolver.Cached.{Request, run, AreVerified, run-AreVerified}

abbrev digest : Text
digest = replicate 64 b'a'

abbrev answer : Response
answer = record {
  tag_name = codes "v2.328.0";
  assets =
      record {
        name = codes "actions-runner-linux-x64-2.328.0.tar.gz";
        download_url = codes "https://example.org/x64";
        digest = codes "sha256:" ++ digest;
      }
      ∷ [];
}

-- A call that asks GitHub, and one after the time to live when GitHub does not answer.
abbrev calls : List Request
calls =
    record { ttl = pos 10; now = pos 0; later = pos 1; arch = codes "amd64"; answer = ok answer }
    ∷ record {
      ttl = pos 10;
      now = pos 50;
      later = pos 51;
      arch = codes "amd64";
      answer = err (codes "down");
    }
    ∷ []

run-AreVerified_example : AreVerified [] calls (run calls [])
run-AreVerified_example = run-AreVerified calls

fetch_test :
    fetch (codes "AMD64") (ok answer)
    ≡ found (record {
      version = codes "2.328.0";
      download_url = codes "https://example.org/x64";
      sha256 = digest;
    })
unfolding fetch text_eq lower_rune
fetch_test = refl

stale_test :
    run calls [] ≡ fetch (codes "amd64") (ok answer) ∷ fetch (codes "amd64") (ok answer) ∷ []
unfolding fetch resolve text_eq lower_rune Dict.insert Dict.lookup ◌-ℤ◌
stale_test = refl
