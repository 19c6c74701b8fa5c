-- ===== src/Orchestrator/Spawn/Payload.antt =====
-- The payload that internal/orchestrator/orchestrator.go has rendered for a runner that it spawns.
use incuse.Base.{true, ◌≡◌}
use incuse.Config.Validity.{Given}
use incuse.Runner.{Release}
use incuse.Runner.Resolver.{Response}
use incuse.Runner.Resolver.Digest.{IsFrom}
use incuse.Runner.CloudInit.Lines.{is_one_line}
use incuse.Orchestrator.Program.{Config}

-- A release of the resolver, with a version, whose URL breaks no line.
abbrev pub IsUsable : Release → Type 0
IsUsable r =
    (body : Response) × IsFrom body r × Given r.version × (is_one_line r.download_url ≡ true)
