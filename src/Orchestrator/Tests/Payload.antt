-- ===== src/Orchestrator/Tests/Payload.antt =====
-- The theorem about the payload of a spawn in internal/orchestrator at a concrete configuration.
use incuse.Base.{
  ℕ, List, Result, err, pos, codes, replicate, false, some, ok, [], ◌∷◌, ◌++◌, ◌≡◌, refl,
}
use incuse.Config.Labels.{scale_set_name}
use incuse.Config.Defaults.Laws.{default_prefix}
use incuse.Config.Tests.{small}
use incuse.Runner.{Release}
use incuse.Runner.Resolver.{Response}
use incuse.Orchestrator.Program.{Config}
use incuse.Orchestrator.Names.Suffix.{encode_hex, pad_hex, random_name_suffix}
use incuse.Orchestrator.Samples.{sample, runner_cfg}

-- A plain image.
abbrev plain_cfg : Config
plain_cfg = record sample {
  scale_set = record (sample.scale_set) { name = scale_set_name small default_prefix };
  runner_cfg = record runner_cfg { use_baked_image = false; release_cache_ttl = some (pos 0) };
}

abbrev answer : Response
answer = record {
  tag_name = codes "v2.328.0";
  assets =
      record {
        name = codes "actions-runner-linux-arm64-2.328.0.tar.gz";
        download_url = codes "https://example.org/arm64";
        digest = codes "sha256:" ++ replicate 64 b'b';
      }
      ∷ [];
}

abbrev release : Release
release = record {
  version = codes "2.328.0";
  download_url = codes "https://example.org/arm64";
  sha256 = replicate 64 b'b';
}

-- Four bytes from the source of random bytes.
abbrev random : Result (List ℕ)
random = ok (0x0a ∷ 0x1b ∷ 0x2c ∷ 0xff ∷ [])

suffix_test : random_name_suffix random 0 ≡ codes "0a1b2cff"
unfolding random_name_suffix encode_hex
suffix_test = refl

clock_test : random_name_suffix (err (codes "EIO")) 0x100000abc ≡ codes "00000abc"
unfolding random_name_suffix pad_hex
clock_test = refl
